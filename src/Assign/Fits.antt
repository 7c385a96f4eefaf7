-- ===== src/Assign/Fits.antt =====
-- The entries that `CouponCodeAssignmentSerializer.validate` of
-- ecommerce/extensions/api/serializers.py makes, and the slots that they take.
use edx_ecommerce.Base.{
  ℕ, zero, suc, ◌+◌, ◌-◌, ◌≤◌, ◌≡◌, refl, ap, ◌∙◌, Bool, true, false, ◌&&◌, Option, none, some,
  List, [], ◌∷◌, ◌==◌, ltb, leb, any, all, sum_of, Bool-cases, inl, inr, arith,
}
use edx_ecommerce.Base.Action.{Result, ok, raised}
use edx_ecommerce.Base.Int.{ℤ, pos, negsuc}
use edx_ecommerce.Voucher.{Voucher}
use edx_ecommerce.Voucher.Slots.{slots_available_for_assignment}
use edx_ecommerce.Assign.Validate.{Available, min, then_entry, fill, by_slots, available_from}

-- A voucher with the code of the entry has the slots that the entry takes.
abbrev pub has_slots : ℕ → Option ℤ → Bool
has_slots n (some (pos m)) = leb n m
has_slots n _ = false

abbrev pub is_within : List Voucher → Available → Bool
is_within us a =
    any
      (λ (u : Voucher).
        (u.code == a.code) && has_slots a.num_slots (slots_available_for_assignment u))
      us

module _ (wanted : ℕ) where
  -- The entries take the slots that were added to the total, and no more than are wanted or there.
  abbrev pub Fits : List Voucher → (total : ℕ) → Result (List Available × ℕ) → Type 0
  Fits us total (raised e) = Unit
  Fits us total (ok (entries, t)) =
      (sum_of (λ (a : Available). a.num_slots) entries + total ≡ t)
      × (t ≤ wanted)
      × (all (is_within us) entries ≡ true)

  all-weaker :
      (u : Voucher) (us : List Voucher) (entries : List Available)
      → all (is_within us) entries ≡ true
      → all (is_within (u ∷ us)) entries ≡ true
  all-weaker u us [] h = refl
  all-weaker u us (a ∷ entries) h = ground (arith, all-weaker u us entries, h)

  Fits-weaker :
      (u : Voucher) (us : List Voucher) (total : ℕ) (q : Result (List Available × ℕ))
      → Fits us total q
      → Fits (u ∷ us) total q
  Fits-weaker u us total (raised e) h = tt
  Fits-weaker u us total (ok (entries, t)) (a, b, c) = (a, b, all-weaker u us entries c)

  then_entry-Fits :
      (u : Voucher) (us : List Voucher) (total n : ℕ) (q : Result (List Available × ℕ))
      → has_slots n (slots_available_for_assignment u) ≡ true
      → Fits us (total + n) q
      → Fits (u ∷ us) total (then_entry (record { code = u.code; num_slots = n }) q)
  then_entry-Fits u us total n (raised e) h k = tt
  then_entry-Fits u us total n (ok (entries, t)) h (a, b, c) =
      (omega (arith, a), b, ground (arith, h, all-weaker u us entries c))

  fill-Fits :
      (u : Voucher) (us : List Voucher) (total n : ℕ) (next : ℕ → Result (List Available × ℕ))
      → slots_available_for_assignment u ≡ some (pos n)
      → total ≤ wanted
      → ((t : ℕ) → t ≤ wanted → Fits us t (next t))
      → Fits (u ∷ us) total (fill false wanted total u.code n next)
  fill-Fits u us total n next slots h k = elim (Bool-cases (ltb total wanted)) [
    | inl e ↦ rw (e) (
        then_entry-Fits u us total (min n (wanted - total)) (next (total + min n (wanted - total)))
          (ap (has_slots (min n (wanted - total))) slots ∙ ground arith)
          (k (total + min n (wanted - total)) (ground (arith, h))))
    | inr e ↦ rw (e) (omega arith, h, refl)
  ]

  by_slots-Fits :
      (u : Voucher) (us : List Voucher) (total : ℕ) (o : Option ℤ)
      (next : ℕ → Result (List Available × ℕ))
      → slots_available_for_assignment u ≡ o
      → total ≤ wanted
      → ((t : ℕ) → t ≤ wanted → Fits us t (next t))
      → Fits (u ∷ us) total (by_slots false wanted total u.code o next)
  by_slots-Fits u us total none next e h k = tt
  by_slots-Fits u us total (some (negsuc m)) next e h k =
      Fits-weaker u us total (next total) (k total h)
  by_slots-Fits u us total (some (pos zero)) next e h k =
      Fits-weaker u us total (next total) (k total h)
  by_slots-Fits u us total (some (pos (suc n))) next e h k = fill-Fits u us total (suc n) next e h k

  pub available_from-Fits :
      (us : List Voucher) (total : ℕ)
      → total ≤ wanted
      → Fits us total (available_from false wanted us total)
  unfolding available_from
  available_from-Fits [] total h = (omega arith, h, refl)
  available_from-Fits (u ∷ us) total h =
      by_slots-Fits u us total (slots_available_for_assignment u)
        (λ t. available_from false wanted us t) refl h (λ t k. available_from-Fits us t k)
