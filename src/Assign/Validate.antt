-- ===== src/Assign/Validate.antt =====
-- `CouponCodeAssignmentSerializer.validate` of ecommerce/extensions/api/serializers.py.
use edx_ecommerce.Base.{
  ℕ, zero, suc, ◌+◌, ◌-◌, Bool, true, false, not, ◌&&◌, Option, none, some, List, [], ◌∷◌, ◌++◌,
  ◌==◌, ltb, leb, length, keep, any, map, if◌then◌else◌,
}
use edx_ecommerce.Base.Action.{Result, ok, raised, validation_error, type_error, attribute_error}
use edx_ecommerce.Base.Int.{ℤ, pos, negsuc}
use edx_ecommerce.Voucher.{Usage, AssignmentStatus, OfferAssignment, Voucher}
use edx_ecommerce.Voucher.Slots.{slots_available_for_assignment}

-- An entry of `available_assignments`; the code of a voucher is its key.
pub record Available : Type 0 where
  pub code : ℕ
  pub num_slots : ℕ

-- What the request and the tables have. `applications` are the codes and e-mail addresses of voucher
-- applications.
pub record Request : Type 0 where
  pub codes : List ℕ
  pub emails : List ℕ
  pub vouchers : List Voucher
  pub assignments : List OfferAssignment
  pub applications : List (ℕ × ℕ)

abbrev pub member : ℕ → List ℕ → Bool
member x xs = any (λ y. x == y) xs

abbrev pub is_revoked : AssignmentStatus → Bool
is_revoked AssignmentStatus.revoked = true
is_revoked _ = false

-- The vouchers that the codes of the request allow; no codes allow all.
abbrev pub by_codes : List ℕ → List Voucher → List Voucher
by_codes [] us = us
by_codes (c ∷ cs) us = keep (λ (u : Voucher). member u.code (c ∷ cs)) us

-- `codes_to_exclude`
unfoldable pub codes_to_exclude : Request → List ℕ
codes_to_exclude r =
    map (λ (a : OfferAssignment). a.code)
      (keep (λ (a : OfferAssignment). member a.user_email r.emails && not (is_revoked a.status))
        r.assignments)
    ++ map (λ (a : ℕ × ℕ). a.0) (keep (λ (a : ℕ × ℕ). member a.1 r.emails) r.applications)

abbrev pub is_once_per_customer : Usage → Bool
is_once_per_customer Usage.once_per_customer = true
is_once_per_customer _ = false

abbrev pub is_multi_use_per_customer : Usage → Bool
is_multi_use_per_customer Usage.multi_use_per_customer = true
is_multi_use_per_customer _ = false

unfoldable pub candidates : Request → Usage → List Voucher
unfolding codes_to_exclude
candidates r usage =
    let us = by_codes r.codes r.vouchers in
    if is_once_per_customer usage
    then keep (λ (u : Voucher). not (member u.code (codes_to_exclude r))) us
    else us

abbrev pub min : ℕ → ℕ → ℕ
min a b = if leb a b then a else b

abbrev pub then_entry : Available → Result (List Available × ℕ) → Result (List Available × ℕ)
then_entry a (ok (as', total)) = ok (a ∷ as', total)
then_entry a (raised e) = raised e

-- One voucher with at least one slot: the loop goes on by `next` from the new total, or breaks.
abbrev pub fill :
    (multi : Bool)
    → (wanted total code n : ℕ) → (ℕ → Result (List Available × ℕ))
    → Result (List Available × ℕ)
fill multi wanted total code n next =
    let slots = if multi then n else min n (wanted - total) in
    if ltb total wanted
    then then_entry (record { code = code; num_slots = slots })
        (next (total + (if multi then 1 else slots)))
    else ok ([], total)

-- By the slots of a voucher: `None < 1` is a `TypeError`, and less than one slot skips it.
abbrev pub by_slots :
    (multi : Bool)
    → (wanted total code : ℕ) → Option ℤ
    → (ℕ → Result (List Available × ℕ))
    → Result (List Available × ℕ)
by_slots multi wanted total code none next = raised type_error
by_slots multi wanted total code (some (negsuc k)) next = next total
by_slots multi wanted total code (some (pos zero)) next = next total
by_slots multi wanted total code (some (pos (suc n))) next =
    fill multi wanted total code (suc n) next

-- The loop over the vouchers, which gives the entries and `total_slots`. (Past the guard of `fill`
-- the total is less than what is wanted, so the difference in the minimum is the source's.)
unfoldable pub available_from :
    (multi : Bool) → (wanted : ℕ) → List Voucher → (total : ℕ) → Result (List Available × ℕ)
unfolding slots_available_for_assignment
available_from multi wanted [] total = ok ([], total)
available_from multi wanted (u ∷ us) total =
    by_slots multi wanted total u.code (slots_available_for_assignment u)
      (λ t. available_from multi wanted us t)

abbrev pub enough : (wanted : ℕ) → Result (List Available × ℕ) → Result (List Available)
enough wanted (raised e) = raised e
enough wanted (ok (entries, total)) =
    if ltb total wanted then raised validation_error else ok entries

abbrev pub with_usage : Usage → Result (List Available) → Result (Usage × List Available)
with_usage usage (ok entries) = ok (usage, entries)
with_usage usage (raised e) = raised e

unfoldable pub available_assignments : Request → Usage → Result (List Available)
unfolding candidates available_from
available_assignments r usage =
    enough (length r.emails)
      (available_from (is_multi_use_per_customer usage) (length r.emails) (candidates r usage) 0)

abbrev pub validate_with : Request → List Voucher → Result (Usage × List Available)
validate_with r [] = raised attribute_error
validate_with r (u ∷ us) = with_usage u.usage (available_assignments r u.usage)

-- The usage is that of the first voucher, and all vouchers of a coupon have it.
unfoldable pub validate : Request → Result (Usage × List Available)
unfolding available_assignments
validate r = validate_with r (by_codes r.codes r.vouchers)
