-- ===== src/Checkout/Codes.antt =====
-- Code assignments at checkout: `create_assignments_for_multi_use_per_customer` and
-- `update_assigned_voucher_offer_assignment` of ecommerce/extensions/checkout/mixins.py, and
-- `update_assignments_for_multi_use_per_customer` of ecommerce/extensions/offer/utils.py.
use edx_ecommerce.Base.{
  ℕ, zero, suc, ◌-◌, Bool, true, false, not, ◌&&◌, Option, none, some, List, [], ◌∷◌, ◌++◌, ◌==◌,
  ltb, length, keep, map, if◌then◌else◌, ⊤,
}
use edx_ecommerce.Base.Action.{Action, ok, pure, raise, type_error, modify}
use edx_ecommerce.Voucher.{
  Usage, AssignmentStatus, Voucher, VoucherOffer, enterprise_offer, is_active,
}

-- A row of `OfferAssignment`. Codes and e-mail addresses are only compared.
pub record Assignment : Type 0 where
  pub offer : ℕ
  pub code : ℕ
  pub user_email : ℕ
  pub status : AssignmentStatus
  pub voucher_application : Option ℕ

-- A row of `CodeAssignmentNudgeEmails`.
pub record Nudge : Type 0 where
  pub code : ℕ
  pub user_email : ℕ
  pub already_sent : Bool
  pub is_subscribed : Bool

-- The two tables, in the order of the primary keys.
pub record Tables : Type 0 where
  pub assignments : List Assignment
  pub nudges : List Nudge

abbrev pub is_for : (code email : ℕ) → Assignment → Bool
is_for code email a = (a.code == code) && (a.user_email == email)

unfoldable pub copies : ℕ → Assignment → List Assignment
copies zero a = []
copies (suc n) a = a ∷ copies n a

abbrev pub fresh : (offer code email : ℕ) → Assignment
fresh offer code email = record {
  offer = offer;
  code = code;
  user_email = email;
  status = AssignmentStatus.assigned;
  voucher_application = none;
}

abbrev pub with_copies : ℕ → Assignment → Tables → Tables
with_copies n a t = record t { assignments = t.assignments ++ copies n a }

-- `if existing < max: … bulk_create(…)`, where a comparison with `None` is a `TypeError`.
unfoldable pub fill_up : (max : Option ℕ) → (existing : ℕ) → Assignment → Action Tables ⊤
unfolding copies
fill_up none existing a = raise type_error
fill_up (some max) existing a =
    if ltb existing max then modify (with_copies (max - existing) a) else pure tt

abbrev pub is_multi_use_per_customer : Usage → Bool
is_multi_use_per_customer Usage.multi_use_per_customer = true
is_multi_use_per_customer _ = false

unfoldable pub create_for : Voucher → (email : ℕ) → VoucherOffer → Action Tables ⊤
unfolding fill_up
create_for u email o t =
    if is_multi_use_per_customer u.usage
    then fill_up o.offer.max_global_applications (length (keep (is_for u.code email) t.assignments))
        (fresh o.offer.id u.code email) t
    else (ok tt, t)

-- `basket.vouchers.first()` and its enterprise offer, where either may be missing.
abbrev pub when_offer : Option VoucherOffer → (VoucherOffer → Action Tables ⊤) → Action Tables ⊤
when_offer none act = pure tt
when_offer (some o) act = act o

unfoldable pub create_assignments_for_multi_use_per_customer :
    Option Voucher → (email : ℕ) → Action Tables ⊤
unfolding enterprise_offer create_for
create_assignments_for_multi_use_per_customer none email = pure tt
create_assignments_for_multi_use_per_customer (some u) email =
    when_offer (enterprise_offer u.offers) (create_for u email)

-- `first()` of the rows that pass the test is redeemed and saved.
unfoldable pub redeem_first :
    (Assignment → Bool) → (application : Option ℕ) → List Assignment → List Assignment
redeem_first p application [] = []
redeem_first p application (a ∷ others) =
    let rest = redeem_first p application others in
    if p a
    then record a { status = AssignmentStatus.redeemed; voucher_application = application } ∷ others
    else a ∷ rest

abbrev pub is_open_for : (offer code email : ℕ) → Assignment → Bool
is_open_for offer code email a = (a.offer == offer) && (is_for code email a && is_active a.status)

abbrev pub unsubscribed : (code email : ℕ) → Nudge → Nudge
unsubscribed code email n =
    if ((n.code == code) && (n.user_email == email)) && not n.already_sent
    then record n { is_subscribed = false }
    else n

unfoldable pub unsubscribe_from_nudging : (code email : ℕ) → List Nudge → List Nudge
unsubscribe_from_nudging code email = map (unsubscribed code email)

abbrev pub is_found : List Assignment → Bool
is_found [] = false
is_found (a ∷ rest) = true

unfoldable pub with_redeemed : (offer code email : ℕ) → (application : Option ℕ) → Tables → Tables
unfolding redeem_first unsubscribe_from_nudging
with_redeemed offer code email application t =
    if is_found (keep (is_open_for offer code email) t.assignments)
    then record {
      assignments = redeem_first (is_open_for offer code email) application t.assignments;
      nudges = unsubscribe_from_nudging code email t.nudges;
    }
    else t

abbrev pub redeem_for :
    Voucher → (email : ℕ) → (application : Option ℕ) → VoucherOffer → Action Tables ⊤
redeem_for u email application o = modify (with_redeemed o.offer.id u.code email application)

-- `application` is the latest application of the voucher by the user in this order.
unfoldable pub update_assigned_voucher_offer_assignment :
    Option Voucher → (email : ℕ) → (application : Option ℕ) → Action Tables ⊤
unfolding enterprise_offer with_redeemed
update_assigned_voucher_offer_assignment none email application = pure tt
update_assigned_voucher_offer_assignment (some u) email application =
    when_offer (enterprise_offer u.offers) (redeem_for u email application)

abbrev pub is_of_offer : (offer code : ℕ) → Assignment → Bool
is_of_offer offer code a = (a.code == code) && (a.offer == offer)

abbrev pub email_of_first : List Assignment → Option ℕ
email_of_first [] = none
email_of_first (a ∷ rest) = some a.user_email

-- With no rows there is no first one, and the function returns.
unfoldable pub extend : Voucher → VoucherOffer → Action Tables ⊤
unfolding fill_up
extend u o t =
    let rows = keep (is_of_offer o.offer.id u.code) t.assignments in
    elim (email_of_first rows) [
      | none ↦ (ok tt, t)
      | some email ↦
          fill_up o.offer.max_global_applications (length rows) (fresh o.offer.id u.code email) t
    ]

-- No row has a missing offer, so a voucher without an enterprise offer has none to extend.
unfoldable pub update_assignments_for_multi_use_per_customer : Voucher → Action Tables ⊤
unfolding enterprise_offer extend
update_assignments_for_multi_use_per_customer u t =
    if is_multi_use_per_customer u.usage
    then when_offer (enterprise_offer u.offers) (extend u) t
    else (ok tt, t)
