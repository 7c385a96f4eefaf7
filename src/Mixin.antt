-- ===== src/Mixin.antt =====
-- Offers without a range: ecommerce/extensions/offer/mixins.py and dynamic_conditional_offer.py, and
-- the lines of program offers in ecommerce/programs/conditions.py.
pub mod Lines
pub mod Dynamic
