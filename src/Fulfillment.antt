-- ===== src/Fulfillment.antt =====
-- Fulfillment of orders: ecommerce/extensions/fulfillment/api.py and modules.py.
mod Status
mod Rows
mod Modules
mod Revocation
pub mod Order
pub mod Outcome
pub mod Serviced
pub mod Success
pub mod Refunds
pub mod Tests
unfoldable pub use Status.*
unfoldable pub use Rows.*
unfoldable pub use Modules.*
unfoldable pub use Revocation.*
