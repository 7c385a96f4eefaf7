-- ===== src/Voucher.antt =====
-- Vouchers: ecommerce/extensions/voucher/models.py.
mod Rows
pub mod Slots
pub mod Customer
pub mod Redeemed
pub mod Tests
unfoldable pub use Rows.*
