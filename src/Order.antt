-- ===== src/Order.antt =====
-- Orders: ecommerce/extensions/order.
pub mod Text
pub mod Number
pub mod Creator
pub mod Placed
pub mod Shipping
pub mod Tests
