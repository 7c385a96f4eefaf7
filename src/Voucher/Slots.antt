-- ===== src/Voucher/Slots.antt =====
-- `calculate_available_slots` and `slots_available_for_assignment`, and how an assignment, its
-- revocation and its redemption change them.
use edx_ecommerce.Base.{
  ℕ, ◌+◌, ◌≡◌, refl, ap, sym, ◌∙◌, Bool, true, false, ◌&&◌, ◌||◌, not, Option, none, some, List, [],
  ◌∷◌, ◌++◌, ◌==◌, if◌then◌else◌, arith,
}
use edx_ecommerce.Base.Int.{ℤ, pos, ◌-ℤ◌, ◌+ℤ◌}
use edx_ecommerce.Voucher.Rows.{
  Usage, single_use, multi_use_per_customer, AssignmentStatus, redeemed, revoked, OfferAssignment,
  Voucher, enterprise_offer, num_assignments, is_active, is_active_for,
}

-- `OFFER_MAX_USES_DEFAULT`
abbrev pub max_uses_default : ℕ
max_uses_default = 10000

-- Python's `a or b` on a number that may be missing.
abbrev pub or_default : Option ℕ → ℕ → ℕ
or_default none d = d
or_default (some n) d = if n == 0 then d else n

abbrev pub is_exclusive : Usage → Bool
is_exclusive single_use = true
is_exclusive multi_use_per_customer = true
is_exclusive _ = false

unfoldable pub calculate_available_slots :
    Voucher → (max_global_applications : Option ℕ) → (assignments : ℕ) → ℤ
unfolding ◌-ℤ◌
calculate_available_slots u max n =
    if is_exclusive u.usage
    then if not (u.num_orders == 0) || not (n == 0) then pos 0 else pos (or_default max 1)
    else pos (or_default max max_uses_default) -ℤ pos (u.num_orders + n)

unfoldable pub slots_available_for_assignment : Voucher → Option ℤ
unfolding enterprise_offer calculate_available_slots
slots_available_for_assignment u = elim (enterprise_offer u.offers) [
  | none ↦ none
  | some o ↦ some (
      calculate_available_slots u o.offer.max_global_applications
        (num_assignments u.code o.assignments))
]

-- The voucher and the assignments once `a`, between `xs` and `ys`, is redeemed by an order.
abbrev pub with_status : AssignmentStatus → OfferAssignment → OfferAssignment
with_status t a = record a { status = t }

abbrev pub one_more_order : Voucher → Voucher
one_more_order u = record u { num_orders = u.num_orders + 1 }

num_assignments-append :
    (code : ℕ) (xs ys : List OfferAssignment)
    → num_assignments code (xs ++ ys) ≡ num_assignments code xs + num_assignments code ys
num_assignments-append code [] ys = omega arith
num_assignments-append code (x ∷ xs) ys = ground (arith, num_assignments-append code xs ys)

num_assignments-middle :
    (code : ℕ) (xs ys : List OfferAssignment) (a : OfferAssignment)
    → is_active_for code a ≡ true
    → num_assignments code (xs ++ a ∷ ys) ≡ num_assignments code xs + num_assignments code ys + 1
num_assignments-middle code xs ys a h = num_assignments-append code xs (a ∷ ys) ∙ ground (arith, h)

num_assignments-closed :
    (code : ℕ) (xs ys : List OfferAssignment) (t : AssignmentStatus) (a : OfferAssignment)
    → is_active t ≡ false
    → num_assignments code (xs ++ with_status t a ∷ ys)
      ≡ num_assignments code xs + num_assignments code ys
num_assignments-closed code xs ys t a h =
    num_assignments-append code xs (with_status t a ∷ ys) ∙ ground (arith, h)

calculate_available_slots-order :
    (u : Voucher) (max : Option ℕ) (n : ℕ)
    → calculate_available_slots (one_more_order u) max n ≡ calculate_available_slots u max (n + 1)
unfolding calculate_available_slots
calculate_available_slots-order u max n = ground (arith)

abbrev freed : Voucher → Option ℕ → ℕ → ℕ → ℤ
freed u max after before =
    if is_exclusive u.usage
    then if (u.num_orders == 0) && (after == 0) then pos (or_default max 1) else pos 0
    else calculate_available_slots u max before +ℤ pos 1

calculate_available_slots-freed :
    (u : Voucher) (max : Option ℕ) (n : ℕ)
    → calculate_available_slots u max n ≡ freed u max n (n + 1)
unfolding calculate_available_slots ◌-ℤ◌ ◌+ℤ◌
calculate_available_slots-freed u max n = ground (arith)

-- The redemption of an active assignment by an order of the voucher leaves the slots as they are.
pub slots-redemption :
    (u : Voucher) (max : Option ℕ) (xs ys : List OfferAssignment) (a : OfferAssignment)
    → is_active_for u.code a ≡ true
    → calculate_available_slots
        (one_more_order u)
        max
        (num_assignments u.code (xs ++ with_status redeemed a ∷ ys))
      ≡ calculate_available_slots u max (num_assignments u.code (xs ++ a ∷ ys))
slots-redemption u max xs ys a h =
    ap (calculate_available_slots (one_more_order u) max)
      (num_assignments-closed u.code xs ys redeemed a refl)
    ∙ calculate_available_slots-order u max (num_assignments u.code xs + num_assignments u.code ys)
    ∙ ap (calculate_available_slots u max) (sym (num_assignments-middle u.code xs ys a h))

-- The revocation of an active assignment frees its slot: a voucher that is neither for a single use
-- nor for many uses by one customer gets one slot more than it had; any other gets all its uses if
-- it has no order and no other active assignment, and no slot otherwise.
pub slots-revocation :
    (u : Voucher) (max : Option ℕ) (xs ys : List OfferAssignment) (a : OfferAssignment)
    → is_active_for u.code a ≡ true
    → calculate_available_slots u max (num_assignments u.code (xs ++ with_status revoked a ∷ ys))
      ≡ (if is_exclusive u.usage
          then if (u.num_orders == 0) && (num_assignments u.code (xs ++ ys) == 0)
            then pos (or_default max 1)
            else pos 0
          else calculate_available_slots u max (num_assignments u.code (xs ++ a ∷ ys)) +ℤ pos 1)
slots-revocation u max xs ys a h =
    let n = num_assignments u.code xs + num_assignments u.code ys in
    ap (calculate_available_slots u max) (num_assignments-closed u.code xs ys revoked a refl)
    ∙ calculate_available_slots-freed u max n
    ∙ ap (freed u max (num_assignments u.code xs + num_assignments u.code ys))
        (sym (num_assignments-middle u.code xs ys a h))
    ∙ ap (λ k. freed u max k (num_assignments u.code (xs ++ a ∷ ys)))
        (sym (num_assignments-append u.code xs ys))
