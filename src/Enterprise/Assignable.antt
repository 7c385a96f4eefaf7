-- ===== src/Enterprise/Assignable.antt =====
-- `AssignableEnterpriseCustomerCondition.is_satisfied`.
use edx_ecommerce.Base.{
  ℕ, ◌+◌, ◌≤◌, ltb, ◌≡◌, refl, ap, ◌∙◌, Bool, true, false, not, ◌&&◌, ◌||◌, Option, none, some,
  List, ◌∷◌, ◌==◌, if◌then◌else◌, any, ⊤, arith,
}
use edx_ecommerce.Base.Action.{
  Result, ok, raised, attribute_error, Action, pure, modify, ◌>>=◌, ◌>>◌,
}
use edx_ecommerce.Base.Int.{ℤ, pos, negsuc, ◌-ℤ◌}
use edx_ecommerce.Offer.{ConditionalOffer}
use edx_ecommerce.Voucher.{
  Voucher, VoucherOffer, enterprise_offer, num_assignments, is_active_for, first,
}
use edx_ecommerce.Voucher.Slots.{
  is_exclusive, or_default, calculate_available_slots, slots_available_for_assignment,
}
use edx_ecommerce.Enterprise.{Basket, User, Services, World}
use edx_ecommerce.Enterprise.Condition.{is_satisfied}

-- Python's truth of `slots_available_for_assignment`: `None` and 0 are false, all else is true.
abbrev pub is_truthy : Option ℤ → Bool
is_truthy none = false
is_truthy (some (pos n)) = not (n == 0)
is_truthy (some (negsuc n)) = true

-- The owner has an assignment of the code that is neither redeemed nor revoked.
abbrev pub has_assignment : Services → (code : ℕ) → Option User → Bool
has_assignment v code none = false
has_assignment v code (some user) =
    any (λ a. is_active_for code a && (a.user_email == user.email)) v.assignments

abbrev warn : Action World ⊤
warn = modify (λ w. record w { warnings = w.warnings + 1 })

unfoldable pub check_voucher : Services → Basket → Option Voucher → Action World Bool
unfolding slots_available_for_assignment
check_voucher v b none w = (raised attribute_error, w)
check_voucher v b (some u) w =
    if has_assignment v u.code b.owner || is_truthy (slots_available_for_assignment u)
    then (ok true, w)
    else (warn >> pure false) w

unfoldable pub is_satisfied_assignable : Services → ConditionalOffer → Basket → Action World Bool
unfolding is_satisfied check_voucher
is_satisfied_assignable v offer b = do
  condition_satisfied ← is_satisfied v offer b
  if not condition_satisfied then pure false else check_voucher v b (first b.vouchers)

-- What the result of the parent's condition leads to.
abbrev then_voucher :
    (Basket → Action World Bool) → Basket → Result Bool × World → Result Bool × World
then_voucher k b (ok true, w) = k b w
then_voucher k b (ok false, w) = (ok false, w)
then_voucher k b (raised e, w) = (raised e, w)

by_result :
    (k : Basket → Action World Bool) (b : Basket) (q : Result Bool × World)
    → (elim q.0 as (λ r. Result Bool × World) [
      | ok done ↦ (if not done then pure false else k b) q.1
      | raised e ↦ (raised e, q.1)
    ])
      ≡ then_voucher k b q
by_result k b (ok true, w) = refl
by_result k b (ok false, w) = refl
by_result k b (raised e, w) = refl

calculate_available_slots-none_left :
    (u : Voucher) (max : Option ℕ) (n : ℕ)
    → is_exclusive u.usage ≡ false
    → or_default max 10000 ≤ u.num_orders + n
    → is_truthy (some (calculate_available_slots u max n))
      ≡ ltb (or_default max 10000) (u.num_orders + n)
unfolding calculate_available_slots ◌-ℤ◌
calculate_available_slots-none_left u max n x k = rw x (ground (arith, k))

slots-none_left :
    (u : Voucher) (o : VoucherOffer)
    → is_exclusive u.usage ≡ false
    → enterprise_offer u.offers ≡ some o
    → or_default o.offer.max_global_applications 10000
      ≤ u.num_orders + num_assignments u.code o.assignments
    → is_truthy (slots_available_for_assignment u)
      ≡ ltb
          (or_default o.offer.max_global_applications 10000)
          (u.num_orders + num_assignments u.code o.assignments)
unfolding slots_available_for_assignment
slots-none_left u o x f k =
    rw (f, slots_available_for_assignment)
      (calculate_available_slots-none_left u o.offer.max_global_applications
        (num_assignments u.code o.assignments) x k)

module _ (v : Services) (offer : ConditionalOffer) (b : Basket) where
  is_satisfied_assignable-then :
      (w : World)
      → is_satisfied_assignable v offer b w
        ≡ then_voucher (λ b. check_voucher v b (first b.vouchers)) b (is_satisfied v offer b w)
  unfolding is_satisfied_assignable
  is_satisfied_assignable-then w =
      by_result (λ b. check_voucher v b (first b.vouchers)) b (is_satisfied v offer b w)

  -- Where the parent's condition is satisfied and the basket has a voucher: an assignment of its code
  -- to the owner, or slots that are not 0, satisfy the condition; without both the user is warned.
  pub is_satisfied_assignable-voucher :
      (w : World) (u : Voucher) (rest : List Voucher)
      → is_satisfied v offer b w ≡ (ok true, w)
      → b.vouchers ≡ u ∷ rest
      → is_satisfied_assignable v offer b w ≡ (
          if has_assignment v u.code b.owner || is_truthy (slots_available_for_assignment u)
          then (ok true, w)
          else (ok false, record w { warnings = w.warnings + 1 }))
  unfolding check_voucher
  is_satisfied_assignable-voucher w u rest h e =
      is_satisfied_assignable-then w
      ∙ ap (then_voucher (λ b. check_voucher v b (first b.vouchers)) b) h
      ∙ ap (λ us. check_voucher v b (first us) w) e

  -- Where the parent's condition is satisfied, and the first voucher of the basket is neither for a
  -- single use nor for many uses by one customer, has an enterprise offer, and at least as many
  -- orders and active assignments as uses (10000 where the offer has no limit or the limit 0): if
  -- they are exactly as many, an owner without an assignment of the code is refused and warned; but
  -- if they are more, the condition is satisfied with or without an assignment.
  pub is_satisfied_assignable-overdrawn :
      (w : World) (u : Voucher) (rest : List Voucher) (o : VoucherOffer)
      → is_satisfied v offer b w ≡ (ok true, w)
      → b.vouchers ≡ u ∷ rest
      → is_exclusive u.usage ≡ false
      → enterprise_offer u.offers ≡ some o
      → or_default o.offer.max_global_applications 10000
        ≤ u.num_orders + num_assignments u.code o.assignments
      → is_satisfied_assignable v offer b w ≡ (
          if has_assignment v u.code b.owner
            || ltb
                (or_default o.offer.max_global_applications 10000)
                (u.num_orders + num_assignments u.code o.assignments)
          then (ok true, w)
          else (ok false, record w { warnings = w.warnings + 1 }))
  is_satisfied_assignable-overdrawn w u rest o h e x f k =
      is_satisfied_assignable-voucher w u rest h e
      ∙ ap
          (λ t.
            if has_assignment v u.code b.owner || t
            then (ok true, w)
            else (ok false, record w { warnings = w.warnings + 1 }))
          (slots-none_left u o x f k)
