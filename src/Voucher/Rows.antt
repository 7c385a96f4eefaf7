-- ===== src/Voucher/Rows.antt =====
-- Vouchers, their offers and the assignments of codes to users: ecommerce/extensions/voucher and
-- ecommerce/extensions/offer.
use edx_ecommerce.Base.{
  ℕ, Bool, true, false, Option, none, some, List, [], ◌∷◌, ◌==◌, is_some, if◌then◌else◌, length,
  keep, ◌&&◌,
}
use edx_ecommerce.Base.Action.{Result, ok, raised, index_error}
use edx_ecommerce.Offer.{ConditionalOffer}

pub data Usage : Type 0 where
  single_use multi_use once_per_customer multi_use_per_customer : Usage

pub data AssignmentStatus : Type 0 where
  email_pending assigned redeemed email_bounced revoked : AssignmentStatus

-- Codes and e-mail addresses are only compared, so they are numbers.
pub record OfferAssignment : Type 0 where
  pub id : ℕ
  pub code : ℕ
  pub user_email : ℕ
  pub status : AssignmentStatus

-- An offer of a voucher, with its `offerassignment_set` and whether its condition has a range.
pub record VoucherOffer : Type 0 where
  pub offer : ConditionalOffer
  pub has_range : Bool
  pub assignments : List OfferAssignment

-- An application: the user, if one is recorded, and the user's e-mail address.
pub record VoucherApplication : Type 0 where
  pub user : Option ℕ
  pub user_email : ℕ

-- `offers` is in the order of the primary keys, `by_date` is `offers.order_by('date_created')`.
pub record Voucher : Type 0 where
  pub code : ℕ
  pub usage : Usage
  pub num_orders : ℕ
  pub offers : List VoucherOffer
  pub by_date : List VoucherOffer
  pub applications : List VoucherApplication

abbrev pub first : {A : Type 0} → List A → Option A
first [] = none
first (x ∷ xs) = some x

abbrev pub or_index_error : Option VoucherOffer → Result VoucherOffer
or_index_error none = raised index_error
or_index_error (some o) = ok o

unfoldable pub original_offer : Voucher → Result VoucherOffer
original_offer u = elim (first (keep (λ o. o.has_range) u.offers)) [
  | some o ↦ ok o
  | none ↦ or_index_error (first u.by_date)
]

unfoldable pub enterprise_offer : List VoucherOffer → Option VoucherOffer
enterprise_offer [] = none
enterprise_offer (o ∷ os) =
    if is_some o.offer.enterprise_customer_uuid then some o else enterprise_offer os

unfoldable pub best_offer : Voucher → Result VoucherOffer
unfolding enterprise_offer original_offer
best_offer u = elim (enterprise_offer u.offers) [ some o ↦ ok o | none ↦ original_offer u ]

-- `status not in [OFFER_REDEEMED, OFFER_ASSIGNMENT_REVOKED]`
abbrev pub is_active : AssignmentStatus → Bool
is_active redeemed = false
is_active revoked = false
is_active _ = true

abbrev pub is_active_for : (code : ℕ) → OfferAssignment → Bool
is_active_for code a = (a.code == code) && is_active a.status

-- The loop that counts the assignments of this code that are not redeemed or revoked.
abbrev pub num_assignments : (code : ℕ) → List OfferAssignment → ℕ
num_assignments code xs = length (keep (is_active_for code) xs)
