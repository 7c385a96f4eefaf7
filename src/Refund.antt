-- ===== src/Refund.antt =====
-- `Refund` and `RefundLine` of ecommerce/extensions/refund/models.py, with
-- `revoke_fulfillment_for_refund` of ecommerce/extensions/fulfillment/api.py.
mod Status
mod Rows
mod Credit
mod Revoke
pub mod Approve
pub mod Payment
pub mod Credited
pub mod History
pub mod Settlement
pub mod Lines
pub mod Retry
pub mod Creation
pub mod Frame
pub mod Once
pub mod Denial
pub mod Offers
mod Tests
unfoldable pub use Status.*
unfoldable pub use Rows.*
unfoldable pub use Credit.*
unfoldable pub use Revoke.*
