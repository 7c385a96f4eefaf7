-- ===== src/Coupon.antt =====
-- The creation of vouchers: ecommerce/extensions/voucher/utils.py, with the checks of
-- ecommerce/extensions/voucher/models.py.
mod Rows
pub mod Code
pub mod Clean
pub mod Create
pub mod Enterprise
pub mod Names
pub mod Ends
pub mod Links
pub mod Attached
mod Tests
unfoldable pub use Rows.*
