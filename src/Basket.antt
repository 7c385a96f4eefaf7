-- ===== src/Basket.antt =====
-- Baskets: ecommerce/extensions/basket.
mod Rows
pub mod Prepare
pub mod Prepared
pub mod Get
mod Tests
unfoldable pub use Rows.*
