-- ===== src/Coupon/Ends.antt =====
-- Calls of ecommerce/extensions/voucher/utils.py that end without an `IndexError`.
use edx_ecommerce.Base.{
  ℕ, zero, suc, ◌≡◌, refl, Bool, true, false, ◌&&◌, Option, none, some, is_some, List, [], ◌∷◌,
  ◌==◌, if◌then◌else◌, Bool-cases, inl, inr, ⊤, one_of, all,
}
use edx_ecommerce.Base.Action.{
  Action, Result, ok, raised, Exc, index_error, value_error, validation_error, pure, call, modify,
  ◌>>◌,
}
use edx_ecommerce.Order.Text.{Text}
use edx_ecommerce.Coupon.Rows.{Date, datetime, text, VoucherRow, Link, Store, Python}
use edx_ecommerce.Coupon.Create.{
  has_text, Batch, voucher_row, from_start, from_code, create_new_voucher, is_single_use,
  validate_voucher_fields, insert_voucher, code_or_new, parse_date, validate_date, to_validation,
  is_parse_error,
}
use edx_ecommerce.Coupon.Clean.{both, clean_code, clean_datetimes, clean, save, add_voucher}
use edx_ecommerce.Coupon.Code.{generate, generate_code_string, draw, is_taken}

abbrev pub is_index_error : Exc → Bool
is_index_error index_error = true
is_index_error _ = false

abbrev pub NoIndexError : {A : Type 0} → Result A → Type 0
NoIndexError (ok a) = Unit
NoIndexError (raised e) = is_index_error e ≡ false

-- A call ends well when it returns what `P` says, or raises anything but an `IndexError` and has
-- stored no link.
abbrev pub EndsWith :
    {A : Type 0} → (links : List Link) → (A → Store → Type 0) → Result A × Store → Type 0
EndsWith links P (ok a, s) = P a s
EndsWith links P (raised e, s) = (is_index_error e ≡ false) × (s.links ≡ links)

module _ {A B : Type 0} (links : List Link) (P : A → Store → Type 0) (Q : B → Store → Type 0) where
  pub EndsWith->>= :
      (q : Result A × Store) (f : A → Action Store B)
      → EndsWith links P q
      → ((a : A) (s : Store) → P a s → EndsWith links Q (f a s))
      → EndsWith links Q
          (elim q.0 as (λ r. Result B × Store) [ ok a ↦ f a q.1 | raised e ↦ (raised e, q.1) ])
  EndsWith->>= (ok a, s) f h k = k a s h
  EndsWith->>= (raised e, s) f h k = h

-- What the parser of dates and Oscar raise is no `IndexError`.
pub record IsPython (y : Python) : Type 0 where
  pub parses : (t : ℕ) → NoIndexError (y.parse t)
  pub inserts : (v : VoucherRow) (vs : List VoucherRow) → NoIndexError (y.insert v vs)

module _ (y : Python) (python : IsPython y) (b : Batch) (links : List Link) where
  abbrev pub Unlinked : {A : Type 0} → A → Store → Type 0
  Unlinked a s = s.links ≡ links

  pub call-EndsWith :
      {A : Type 0} (r : Result A) (s : Store)
      → NoIndexError r
      → s.links ≡ links
      → EndsWith links Unlinked (r, s)
  call-EndsWith (ok a) s h k = k
  call-EndsWith (raised e) s h k = (h, k)

  generate-EndsWith :
      (n : ℕ) (s : Store) → s.links ≡ links → EndsWith links Unlinked (generate y n s)
  unfolding generate
  generate-EndsWith zero s h = (refl, h)
  generate-EndsWith (suc n) s h = elim (Bool-cases (is_taken (y.random_code s.drawn) s.vouchers)) [
    | inl e ↦ rw (generate, e) (generate-EndsWith n (draw s) h)
    | inr e ↦ rw (generate, e) h
  ]

  code_string-EndsWith :
      (s : Store) → s.links ≡ links → EndsWith links Unlinked (generate_code_string y s)
  unfolding generate_code_string
  code_string-EndsWith s h =
      one_of (y.code_length == 0) (raised value_error, s) (generate y y.recursion_limit s)
        (EndsWith links Unlinked) (refl, h) (generate-EndsWith y.recursion_limit s h)

  code-EndsWith :
      (code : Option Text) (s : Store)
      → s.links ≡ links
      → EndsWith links Unlinked (code_or_new y code s)
  code-EndsWith none s h = code_string-EndsWith s h
  code-EndsWith (some []) s h = code_string-EndsWith s h
  code-EndsWith (some (c ∷ code)) s h = h

  parse_date-NoIndexError : (d : Option Date) → NoIndexError (parse_date y d)
  parse_date-NoIndexError none = refl
  parse_date-NoIndexError (some (datetime d)) = tt
  parse_date-NoIndexError (some (text t)) = python.parses t

  both-NoIndexError : (r t : Result ⊤) → NoIndexError r → NoIndexError t → NoIndexError (both r t)
  both-NoIndexError (ok u) t h k = k
  both-NoIndexError (raised e) t h k = h

  clean_code-NoIndexError : (code : Text) → NoIndexError (clean_code y code)
  unfolding clean_code
  clean_code-NoIndexError [] = refl
  clean_code-NoIndexError (c ∷ code) =
      one_of (all y.is_alnum (c ∷ code)) (ok tt) (raised validation_error) NoIndexError tt refl

  save-EndsWith :
      (v : VoucherRow) (s : Store) → s.links ≡ links → EndsWith links Unlinked (save y v s)
  unfolding save clean clean_datetimes
  save-EndsWith v s h =
      let cleaning =
        clean y v.code (some (datetime v.start_datetime)) (some (datetime v.end_datetime)) in
      let cleaned =
        call-EndsWith cleaning s
          (both-NoIndexError (clean_code y v.code) (ok tt) (clean_code-NoIndexError v.code) tt) h in
      let inserted =
        EndsWith->>= links Unlinked Unlinked (call cleaning s) (λ _. call (y.insert v s.vouchers))
          cleaned
          (λ u t k. call-EndsWith (y.insert v s.vouchers) t (python.inserts v s.vouchers) k) in
      EndsWith->>= links Unlinked Unlinked ((call cleaning >> call (y.insert v s.vouchers)) s)
        (λ _. modify (add_voucher v)) inserted (λ u t k. k)

  insert_voucher-EndsWith :
      (v : VoucherRow) (s : Store)
      → s.links ≡ links
      → EndsWith links Unlinked (insert_voucher y v s)
  insert_voucher-EndsWith v s h =
      EndsWith->>= links Unlinked Unlinked (save y v s) (λ _. pure v) (save-EndsWith v s h)
        (λ u t k. k)

  pub create_new_voucher-EndsWith :
      (s : Store) → s.links ≡ links → EndsWith links Unlinked (create_new_voucher y b s)
  unfolding create_new_voucher
  create_new_voucher-EndsWith s h =
      EndsWith->>= links Unlinked Unlinked (code_or_new y b.code s) (from_code y b)
        (code-EndsWith b.code s h)
        (λ code t k.
          EndsWith->>= links Unlinked Unlinked (call (parse_date y b.start_datetime) t)
            (from_start y b code)
            (call-EndsWith (parse_date y b.start_datetime) t
              (parse_date-NoIndexError b.start_datetime) k)
            (λ start t' k'.
              EndsWith->>= links Unlinked Unlinked (call (parse_date y b.end_datetime) t')
                (λ end. insert_voucher y (voucher_row b code start end))
                (call-EndsWith (parse_date y b.end_datetime) t'
                  (parse_date-NoIndexError b.end_datetime) k')
                (λ end t'' k''. insert_voucher-EndsWith (voucher_row b code start end) t'' k'')))

  validate_date-NoIndexError : (d : Option Date) → NoIndexError (validate_date y d)
  validate_date-NoIndexError none = refl
  validate_date-NoIndexError (some (datetime d)) = tt
  validate_date-NoIndexError (some (text t)) = validated (y.parse t) (python.parses t)
    where
      validated : (r : Result ℕ) → NoIndexError r → NoIndexError (to_validation r)
      validated (ok d) h = tt
      validated (raised e) h =
          one_of (is_parse_error e) (raised validation_error) (raised e) NoIndexError refl h

  pub validate_voucher_fields-NoIndexError : NoIndexError (validate_voucher_fields y b)
  unfolding validate_voucher_fields
  validate_voucher_fields-NoIndexError =
      let dates = both (validate_date y b.end_datetime) (validate_date y b.start_datetime) in
      let enrollment = b.is_percentage && ((b.benefit_value == 100) && has_text b.code) in
      one_of (is_some b.max_uses && is_single_use b.voucher_type) (raised validation_error)
        (if enrollment then raised validation_error else dates) NoIndexError refl
        (one_of enrollment (raised validation_error) dates NoIndexError refl (
          both-NoIndexError (validate_date y b.end_datetime) (validate_date y b.start_datetime)
            (validate_date-NoIndexError b.end_datetime)
            (validate_date-NoIndexError b.start_datetime)))
