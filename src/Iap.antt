-- ===== src/Iap.antt =====
-- In-app purchases: ecommerce/extensions/iap/processors.
pub mod Response
pub mod Unique
mod Tests
