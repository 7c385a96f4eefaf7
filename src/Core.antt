-- ===== src/Core.antt =====
-- Shared utilities: ecommerce/core/utils.py.
pub mod Pages
mod Tests
