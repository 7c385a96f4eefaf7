-- ===== src/Assign/Exact.antt =====
-- What `CouponCodeAssignmentSerializer` of ecommerce/extensions/api/serializers.py assigns after it
-- has validated a request.
use edx_ecommerce.Base.{
  ℕ, zero, suc, ◌+◌, ◌≤◌, ◌≡◌, refl, ap, sym, ◌∙◌, true, false, none, List, [], ◌∷◌, ◌++◌, ltb,
  length, all, sum_of, map, ⊤, Bool-cases, inl, inr, arith,
}
use mathlib.Core.List.{append_assoc, append-nil}
use edx_ecommerce.Base.Action.{Action, Result, ok, raised, modify, ◌>>=◌, ◌>>◌}
use edx_ecommerce.Base.Bind.{>>-returns, >>=-returns}
use edx_ecommerce.Voucher.{Voucher, Usage}
use edx_ecommerce.Assign.Validate.{
  Available, Request, available_from, enough, with_usage, available_assignments, validate_with,
  validate, candidates, by_codes, is_multi_use_per_customer,
}
use edx_ecommerce.Assign.Create.{
  Assigned, State, next_of, add, user_or_next, assign, assign_code, create,
}
use edx_ecommerce.Assign.Fits.{is_within, Fits, available_from-Fits}

abbrev pub emails_of : List Assigned → List ℕ
emails_of = map (λ (a : Assigned). a.user_email)

-- The users of the assignments so far, and then those that are left.
abbrev served : State → List ℕ
served s = emails_of s.offer_assignments ++ s.users

abbrev AfterSlots : (slots : ℕ) → State → Result ⊤ × State → Type 0
AfterSlots n s q = (q.0 ≡ ok tt) × (served q.1 ≡ served s) × (length q.1.users + n ≡ length s.users)

emails_of-append : (xs ys : List Assigned) → emails_of (xs ++ ys) ≡ emails_of xs ++ emails_of ys
emails_of-append [] ys = refl
emails_of-append (x ∷ xs) ys = ap (λ es. x.user_email ∷ es) (emails_of-append xs ys)

-- One user is taken from the list and gets an assignment.
abbrev with_first : (code user : ℕ) → (others : List ℕ) → State → State
with_first code user others s = record {
  users = others;
  offer_assignments = s.offer_assignments ++ record { code = code; user_email = user } ∷ [];
}

with_first-served :
    (code user : ℕ) (others : List ℕ) (s : State)
    → s.users ≡ user ∷ others
    → served (with_first code user others s) ≡ served s
with_first-served code user others s h =
    ap (λ es. es ++ others)
      (emails_of-append s.offer_assignments (record { code = code; user_email = user } ∷ []))
    ∙ append_assoc (emails_of s.offer_assignments) (user ∷ []) others
    ∙ ap (λ us. emails_of s.offer_assignments ++ us) (sym h)

assign-slots :
    (code n : ℕ) (us : List ℕ) (s : State)
    → s.users ≡ us
    → n ≤ length us
    → AfterSlots n s (assign code n none s)
unfolding assign
assign-slots code zero us s e h = (refl, refl, omega arith)
assign-slots code (suc n) [] s e h = ground (arith, h)
assign-slots code (suc n) (u ∷ us) s e h =
    let taken : (user_or_next none >>= λ v. modify (add code v)) s
        ≡ (ok tt, with_first code u us s) =
      >>=-returns (user_or_next none) (λ v. modify (add code v)) (ap (λ xs. next_of xs s) e) in
    let (r, kept, len) = assign-slots code n us (with_first code u us s) refl (omega (arith, h)) in
    let step =
      >>-returns (user_or_next none >>= λ v. modify (add code v)) (assign code n none) taken in
    (
      ap (λ q. q.0) step ∙ r,
      ap (λ q. served q.1) step ∙ kept ∙ with_first-served code u us s e,
      ap (λ q. length q.1.users + suc n) step ∙ omega (arith, len, ap length e),
    )

abbrev slots_of : List Available → ℕ
slots_of = sum_of (λ (a : Available). a.num_slots)

assign_code-slots :
    (a : Available) (s : State)
    → a.num_slots ≤ length s.users
    → AfterSlots a.num_slots s (assign_code false a s)
unfolding assign_code
assign_code-slots a s h = assign-slots a.code a.num_slots s.users s refl h

-- The next call after one that returned.
after_next :
    (m k : Action State ⊤) (n j : ℕ) (s : State)
    → AfterSlots n s (m s)
    → AfterSlots j (m s).1 (k (m s).1)
    → AfterSlots (n + j) s ((m >> k) s)
after_next m k n j s (r, kept, len) (r', kept', len') =
    let step : (m >> k) s ≡ k (m s).1 = >>-returns m k (ap (λ x. (x, (m s).1)) r) in
    (
      ap (λ q. q.0) step ∙ r',
      ap (λ q. served q.1) step ∙ kept' ∙ kept,
      ap (λ q. length q.1.users + (n + j)) step ∙ omega (arith, len, len'),
    )

create-slots :
    (entries : List Available) (s : State)
    → slots_of entries ≤ length s.users
    → AfterSlots (slots_of entries) s (create false entries s)
unfolding create
create-slots [] s h = (refl, refl, omega arith)
create-slots (a ∷ entries) s h =
    let (r, kept, len) = assign_code-slots a s (omega (arith, h)) in
    after_next (assign_code false a) (create false entries) a.num_slots (slots_of entries) s
      (r, kept, len) (create-slots entries (assign_code false a s).1 (omega (arith, h, len)))

no_users : (us : List ℕ) → length us ≡ 0 → us ≡ []
no_users [] h = refl
no_users (u ∷ us) h = ground (arith, h)

-- The entries of a request that passed the validation.
enough-Fits :
    (us : List Voucher) (emails : List ℕ) (q : Result (List Available × ℕ))
    (entries : List Available)
    → Fits (length emails) us 0 q
    → enough (length emails) q ≡ ok entries
    → (slots_of entries ≡ length emails) × (all (is_within us) entries ≡ true)
enough-Fits us emails (raised e) entries h k = cc
enough-Fits us emails (ok (es, t)) entries (a, b, c) k = elim (Bool-cases (ltb t (length emails))) [
  | inl e ↦ ground (arith, k, e)
  | inr e ↦
      let same : es ≡ entries = ground (arith, k, e) in
      let least : length emails ≤ t = ground (arith, e) in
      (ap slots_of (sym same) ∙ omega (arith, a, b, least), ap (all (is_within us)) (sym same) ∙ c)
]

available_assignments-Fits :
    (r : Request) (usage : Usage) (entries : List Available)
    → is_multi_use_per_customer usage ≡ false
    → available_assignments r usage ≡ ok entries
    → (slots_of entries ≡ length r.emails) × (all (is_within (candidates r usage)) entries ≡ true)
unfolding available_assignments
available_assignments-Fits r usage entries single h =
    let wanted = length r.emails in
    enough-Fits (candidates r usage) r.emails (available_from false wanted (candidates r usage) 0)
      entries (available_from-Fits wanted (candidates r usage) 0 (omega arith))
      (ap (λ b. enough wanted (available_from b wanted (candidates r usage) 0)) (sym single) ∙ h)

abbrev usage_of : Usage → Result (Usage × List Available) → Usage
usage_of v (ok p) = p.0
usage_of v (raised e) = v

abbrev entries_of : Result (Usage × List Available) → Result (List Available)
entries_of (ok p) = ok p.1
entries_of (raised e) = raised e

with_usage-ok :
    (v usage : Usage) (q : Result (List Available)) (entries : List Available)
    → with_usage v q ≡ ok (usage, entries)
    → (v ≡ usage) × (q ≡ ok entries)
with_usage-ok v usage (ok es) entries h = (ap (usage_of v) h, ap entries_of h)
with_usage-ok v usage (raised e) entries h = cc

validate_with-ok :
    (r : Request) (us : List Voucher) (usage : Usage) (entries : List Available)
    → validate_with r us ≡ ok (usage, entries)
    → available_assignments r usage ≡ ok entries
validate_with-ok r [] usage entries h = cc
validate_with-ok r (u ∷ us) usage entries h =
    let (same, found) = with_usage-ok u.usage usage (available_assignments r u.usage) entries h in
    ap (available_assignments r) (sym same) ∙ found

abbrev pub start : List ℕ → State
start emails = record { users = emails; offer_assignments = [] }

-- If a request passed the validation and its vouchers are not for many uses by one customer: `create`
-- returns and assigns one code to each user of the request, in their order, and each entry has a
-- voucher of its code among the candidates with at least as many slots as the entry takes.
pub create-emails :
    (r : Request) (usage : Usage) (entries : List Available)
    → validate r ≡ ok (usage, entries)
    → is_multi_use_per_customer usage ≡ false
    → ((create (is_multi_use_per_customer usage) entries (start r.emails)).0 ≡ ok tt)
      × (emails_of
            (create (is_multi_use_per_customer usage) entries (start r.emails)).1.offer_assignments
          ≡ r.emails)
      × (all (is_within (candidates r usage)) entries ≡ true)
unfolding validate
create-emails r usage entries h single =
    let found = validate_with-ok r (by_codes r.codes r.vouchers) usage entries h in
    let (total, within) = available_assignments-Fits r usage entries single found in
    let s = start r.emails in
    let q = create false entries s in
    let (returned, kept, len) = create-slots entries s (omega (arith, total)) in
    let none_left = no_users q.1.users (omega (arith, len, total)) in
    let all_served : emails_of q.1.offer_assignments ≡ r.emails =
      sym (append-nil (emails_of q.1.offer_assignments))
      ∙ ap (λ us. emails_of q.1.offer_assignments ++ us) (sym none_left)
      ∙ kept in
    (
      ap (λ b. (create b entries s).0) single ∙ returned,
      ap (λ b. emails_of (create b entries s).1.offer_assignments) single ∙ all_served,
      within,
    )
