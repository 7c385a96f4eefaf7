-- ===== src/Enterprise.antt =====
-- The conditions of enterprise offers: ecommerce/enterprise/conditions.py.
mod Rows
mod Limits
pub mod Condition
pub mod Eligible
pub mod Assignable
mod Tests
unfoldable pub use Rows.*
unfoldable pub use Limits.*
