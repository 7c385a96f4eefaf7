-- ===== src/Offer/Rows.antt =====
-- The rows of offers and of discounts that the parts share: ecommerce/extensions/offer/models.py,
-- with the columns that it inherits from Oscar's `AbstractConditionalOffer`.
use edx_ecommerce.Base.{ℕ, Bool, true, false, Option}
use edx_ecommerce.Base.Int.{ℤ}

pub data OfferType : Type 0 where
  site voucher user session : OfferType

abbrev pub is_site : OfferType → Bool
is_site site = true
is_site _ = false

pub data BenefitType : Type 0 where
  percentage fixed : BenefitType

-- Amounts are in cents; identifiers and UUIDs, which are only compared, are numbers. The fields of
-- `condition` and `benefit` stand beside those of the offer.
pub record ConditionalOffer : Type 0 where
  pub id : ℕ
  pub offer_type : OfferType
  pub priority : ℕ
  pub enterprise_customer_uuid : Option ℕ
  pub enterprise_customer_catalog_uuid : Option ℕ
  pub program_uuid : Option ℕ
  pub benefit_type : BenefitType
  pub benefit_value : ℕ
  pub max_global_applications : Option ℕ
  pub max_discount : Option ℤ
  pub max_user_discount : Option ℤ
  pub num_applications : ℤ
  pub num_orders : ℤ
  pub total_discount : ℤ
