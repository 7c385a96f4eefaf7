-- ===== src/Assign.antt =====
-- The assignment of codes to users: `CouponCodeAssignmentSerializer` of
-- ecommerce/extensions/api/serializers.py.
pub mod Validate
pub mod Create
pub mod Fits
pub mod Exact
pub mod Revoke
mod Tests
