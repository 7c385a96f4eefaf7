-- ===== src/Checkout.antt =====
-- Checkout: `EdxOrderPlacementMixin` of ecommerce/extensions/checkout/mixins.py.
mod Codes
pub mod Counter
pub mod Placement
pub mod Payment
pub mod Complete
mod Tests
unfoldable pub use Codes.*
