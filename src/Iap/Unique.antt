-- ===== src/Iap/Unique.antt =====
-- No in-app purchase is accepted twice: `handle_processor_response` of
-- ecommerce/extensions/iap/processors/base_iap.py.
use edx_ecommerce.Base.{
  ℕ, zero, suc, ◌+◌, ◌≤◌, ◌≡◌, refl, ap, sym, ◌∙◌, Bool, true, false, not, ◌&&◌, Option, none, some,
  List, [], ◌∷◌, any, length, keep, if◌then◌else◌, Bool-cases, inl, inr, ==→≡, arith, one_of,
  and_false, Option-cases,
}
use edx_ecommerce.Base.Action.{Result, ok, raised, payment_error, redundant_payment, call}
use edx_ecommerce.Base.Keeps.{Keeps, Keeps->>=, Keeps-call}
use edx_ecommerce.Iap.Response.{
  Name, ios, android, Row, Response, Processor, Handled, add_row, failed_row, attempts,
  parse_ios_response, is_ios, attributes, same, same_name, identity, is_payment_redundant,
  lacks_original, accepted_row, accept, accept_attributes, accept_receipt,
  handle_processor_response,
}

-- The row of a payment of the store with the identity `x`.
abbrev pub has_identity : Name → (x : ℕ) → Row → Bool
has_identity name x r =
    same_name r.processor_name name
    && same (identity name r.original_transaction_id r.transaction_id) (some x)

abbrev pub IsUnique : List Row → Type 0
IsUnique rows = (name : Name) (x : ℕ) → length (keep (has_identity name x) rows) ≤ 1

count-add_row :
    (p : Row → Bool) (r : Row) (rows : List Row)
    → length (keep p (add_row r rows)) ≡ length (keep p rows) + (if p r then 1 else 0)
count-add_row p r [] = ground arith
count-add_row p r (x ∷ rows) = ground (arith, count-add_row p r rows)

no_count : (p : Row → Bool) (rows : List Row) → any p rows ≡ false → length (keep p rows) ≡ 0
no_count p [] h = refl
no_count p (x ∷ rows) h = ground (arith, no_count p rows)

failed_row-nameless :
    (y : Processor) (name : Name) (x : ℕ) → has_identity name x (failed_row y) ≡ false
failed_row-nameless y ios x = and_false (same_name y.name ios)
failed_row-nameless y android x = and_false (same_name y.name android)

add_failed :
    (y : Processor) (rows : List Row) → IsUnique rows → IsUnique (add_row (failed_row y) rows)
add_failed y rows h name x = omega (
  arith,
  h name x,
  count-add_row (has_identity name x) (failed_row y) rows
      ∙ ap (λ b. length (keep (has_identity name x) rows) + (if b then 1 else 0))
          (failed_row-nameless y name x),
)

attempts-Keeps : (y : Processor) (more attempt : ℕ) → Keeps IsUnique (attempts y more attempt)
unfolding attempts
attempts-Keeps y zero attempt rows h = elim (Option-cases (y.validate attempt)) [
  | inl e ↦ rw (attempts, e) (add_failed y rows h)
  | inr (receipt, e) ↦ rw (attempts, e) h
]
attempts-Keeps y (suc more) attempt rows h = elim (Option-cases (y.validate attempt)) [
  | inl e ↦
      rw (attempts, e)
        (attempts-Keeps y more (suc attempt) (add_row (failed_row y) rows) (add_failed y rows h))
  | inr (receipt, e) ↦ rw (attempts, e) h
]

-- The rows with the identity of a payment are those that make it redundant.
any-has_identity :
    (n name : Name) (o t : Option ℕ) (x : ℕ) (rows : List Row)
    → (same_name n name && same (identity name o t) (some x)) ≡ true
    → any (has_identity name x) rows ≡ is_payment_redundant n o t rows
unfolding is_payment_redundant
any-has_identity ios android o t x rows h = cc
any-has_identity android ios o t x rows h = cc
any-has_identity ios ios none t x rows h = cc
any-has_identity ios ios (some a) t x rows h =
    ap (λ z. any (has_identity ios z) rows) (sym (==→≡ a x h))
any-has_identity android android o none x rows h = cc
any-has_identity android android o (some a) x rows h =
    ap (λ z. any (has_identity android z) rows) (sym (==→≡ a x h))

add_accepted :
    (y : Processor) (o t : Option ℕ) (rows : List Row)
    → is_payment_redundant y.name o t rows ≡ false
    → IsUnique rows
    → IsUnique (add_row (accepted_row y o t) rows)
add_accepted y o t rows fresh h name x =
    let p = has_identity name x in
    let counted = count-add_row p (accepted_row y o t) rows in
    elim (Bool-cases (p (accepted_row y o t))) [
      | inl e ↦
          let none_before = no_count p rows (any-has_identity y.name name o t x rows e ∙ fresh) in
          omega
            (arith, none_before, counted ∙ ap (λ b. length (keep p rows) + (if b then 1 else 0)) e)
      | inr e ↦
          omega (arith, h name x, counted ∙ ap (λ b. length (keep p rows) + (if b then 1 else 0)) e)
    ]

accept-Keeps :
    (y : Processor) (o t : Option ℕ)
    → y.disable_redundant_check ≡ false
    → Keeps IsUnique (accept y o t)
unfolding accept
accept-Keeps y o t checked rows h = elim (Bool-cases (is_payment_redundant y.name o t rows)) [
  | inl e ↦
      let c : (not y.disable_redundant_check && is_payment_redundant y.name o t rows) ≡ true =
        ground (arith, checked, e) in
      rw (accept, c)
        (one_of (lacks_original y.name o) (raised payment_error, rows)
          (raised redundant_payment, rows) (λ (q : Result Handled × List Row). IsUnique q.1) h h)
  | inr e ↦
      let c : (not y.disable_redundant_check && is_payment_redundant y.name o t rows) ≡ false =
        ground (arith, checked, e) in
      rw (accept, c)
        (one_of (lacks_original y.name o) (raised payment_error, rows)
          (ok (record { transaction_id = t; total = y.total }), add_row (accepted_row y o t) rows)
          (λ (q : Result Handled × List Row). IsUnique q.1) h (add_accepted y o t rows e h))
]

-- If the check for redundant payments is not switched off, `handle_processor_response` keeps,
-- whether it returns or raises, that no two recorded responses are of the same payment: of one
-- original transaction on iOS, of one transaction on Android.
pub handle_processor_response-Keeps :
    (y : Processor) (r : Response)
    → y.disable_redundant_check ≡ false
    → Keeps IsUnique (handle_processor_response y r)
unfolding handle_processor_response
handle_processor_response-Keeps y r checked =
    Keeps->>= IsUnique (attempts y (if y.retries then y.retry_attempts else 0) 1)
      (accept_receipt y r) (attempts-Keeps y (if y.retries then y.retry_attempts else 0) 1)
      (λ receipt.
        Keeps->>= IsUnique
          (call (
            attributes
              (if is_ios y.name then parse_ios_response receipt r.product_id else receipt)))
          (accept_attributes y r)
          (Keeps-call IsUnique (
            attributes
              (if is_ios y.name then parse_ios_response receipt r.product_id else receipt)))
          (λ (transaction, original). accept-Keeps y _ _ checked))
