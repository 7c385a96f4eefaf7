-- ===== src/Payment.antt =====
-- Payment: ecommerce/extensions/payment/utils.py.
pub mod Truncate
mod Tests
