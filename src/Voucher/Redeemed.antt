-- ===== src/Voucher/Redeemed.antt =====
-- `not_redeemed_assignment_ids`.
use edx_ecommerce.Base.{
  ℕ, ◌≤◌, ◌≡◌, refl, Bool, ◌&&◌, not, Option, none, some, List, [], ◌∷◌, ◌==◌, any, keep, map,
  length, arith, ◌||◌, Bool-cases, inl, inr, ap, ◌∙◌,
}
use edx_ecommerce.Voucher.Rows.{
  Voucher, VoucherApplication, OfferAssignment, VoucherOffer, enterprise_offer, is_active_for,
  num_assignments,
}

abbrev pub has_usage : List VoucherApplication → (email : ℕ) → Bool
has_usage applications email = any (λ a. a.user_email == email) applications

unfoldable pub not_redeemed_of : Voucher → List OfferAssignment → List ℕ
not_redeemed_of u xs =
    map (λ a. a.id)
      (keep (λ a. is_active_for u.code a && not (has_usage u.applications a.user_email)) xs)

unfoldable pub not_redeemed_assignment_ids : Voucher → Option (List ℕ)
unfolding not_redeemed_of enterprise_offer
not_redeemed_assignment_ids u = elim (enterprise_offer u.offers) [
  | none ↦ none
  | some o ↦ some (not_redeemed_of u o.assignments)
]

-- The ids belong to active assignments of the code to users who have not applied the voucher.
abbrev pub is_not_redeemed : Voucher → OfferAssignment → Bool
is_not_redeemed u a = is_active_for u.code a && not (has_usage u.applications a.user_email)

-- What the voucher's ids and its assignments have to do with each other.
pub record IsListed (u : Voucher) (xs : List OfferAssignment) (ids : List ℕ) : Type 0 where
  pub bounded : length ids ≤ num_assignments u.code xs
  pub sound : (i : ℕ) → any (λ j. i == j) ids ≡ any (λ a. (i == a.id) && is_not_redeemed u a) xs

ids-bounded :
    (u : Voucher) (xs : List OfferAssignment)
    → length (not_redeemed_of u xs) ≤ num_assignments u.code xs
unfolding not_redeemed_of
ids-bounded u [] = omega arith
ids-bounded u (a ∷ xs) = ground (arith, ids-bounded u xs)

ids_sound :
    (u : Voucher) (xs : List OfferAssignment) (i : ℕ)
    → any (λ j. i == j) (not_redeemed_of u xs) ≡ any (λ a. (i == a.id) && is_not_redeemed u a) xs
unfolding not_redeemed_of
ids_sound u [] i = refl
ids_sound u (a ∷ xs) i = elim (Bool-cases (is_not_redeemed u a)) [
  | inl e ↦ rw e (ap (λ b. (i == a.id) || b) (ids_sound u xs i) ∙ ground arith)
  | inr e ↦ rw e (ids_sound u xs i ∙ ground arith)
]

-- For a voucher with an enterprise offer there are ids, at most as many as its slots count
-- assignments; and a number is among them exactly when it is the id of an assignment of the
-- voucher's code that is neither redeemed nor revoked, to a user with no application of the voucher.
pub not_redeemed_assignment_ids-IsListed :
    (u : Voucher) (o : VoucherOffer)
    → enterprise_offer u.offers ≡ some o
    → (ids : List ℕ) × (not_redeemed_assignment_ids u ≡ some ids) × IsListed u o.assignments ids
unfolding not_redeemed_assignment_ids
not_redeemed_assignment_ids-IsListed u o e = (
  not_redeemed_of u o.assignments,
  rw (not_redeemed_assignment_ids, e) refl,
  record { bounded = ids-bounded u o.assignments; sound = ids_sound u o.assignments },
)
