-- ===== src/Coupon/Code.antt =====
-- `_generate_code_string` of ecommerce/extensions/voucher/utils.py.
use edx_ecommerce.Base.{
  ℕ, zero, suc, ◌+◌, ◌<◌, ◌≡◌, refl, ap, ◌∙◌, Bool, false, List, ◌==◌, any, map, if◌then◌else◌,
  Bool-cases, inl, inr, arith,
}
use edx_ecommerce.Base.Action.{Action, ok, raised, other, value_error}
use edx_ecommerce.Order.Text.{Text}
use edx_ecommerce.Order.Number.{to_upper}
use edx_ecommerce.Coupon.Rows.{VoucherRow, Store, Python, same_text}

-- `filter(code__iexact=…).exists()`
abbrev pub is_taken : Text → List VoucherRow → Bool
is_taken code vs = any (λ (v : VoucherRow). same_text (map to_upper v.code) (map to_upper code)) vs

abbrev pub draw : Store → Store
draw s = record s { drawn = suc s.drawn }

-- The function calls itself when the code is taken; at the limit of the recursion Python raises.
unfoldable pub generate : Python → (depth : ℕ) → Action Store Text
generate y zero s = (raised other, s)
generate y (suc n) s =
    let again = generate y n (draw s) in
    let code = y.random_code s.drawn in
    if is_taken code s.vouchers then again else (ok code, draw s)

unfoldable pub generate_code_string : Python → Action Store Text
unfolding generate
generate_code_string y s =
    if y.code_length == 0 then (raised value_error, s) else generate y y.recursion_limit s

generate-free :
    (y : Python) (k n : ℕ) (s : Store)
    → k < n
    → is_taken (y.random_code (s.drawn + k)) s.vouchers ≡ false
    → (code : Text) × (s' : Store) × (generate y n s ≡ (ok code, s'))
      × (is_taken code s'.vouchers ≡ false)
      × (s'.vouchers ≡ s.vouchers)
unfolding generate
generate-free y k zero s h free = ground (arith, h)
generate-free y zero (suc n) s h free =
    let e : is_taken (y.random_code s.drawn) s.vouchers ≡ false =
      ap (λ i. is_taken (y.random_code i) s.vouchers) (omega arith) ∙ free in
    (y.random_code s.drawn, draw s, rw (generate, e) refl, e, refl)
generate-free y (suc k) (suc n) s h free =
    elim (Bool-cases (is_taken (y.random_code s.drawn) s.vouchers)) [
      | inl e ↦
          let (code, s', returned, unused, kept) =
            generate-free y k n (draw s) (omega (arith, h))
              (ap (λ i. is_taken (y.random_code i) s.vouchers) (omega arith) ∙ free) in
          (code, s', rw (generate, e) returned, unused, kept)
      | inr e ↦ (y.random_code s.drawn, draw s, rw (generate, e) refl, e, refl)
    ]

-- If the length that the settings give is not 0 and one of the codes drawn within the depth that
-- Python allows is free, `_generate_code_string` returns a code, which no voucher has in upper or
-- lower case, and leaves the vouchers alone.
pub generate_code_string-free :
    (y : Python) (k : ℕ) (s : Store)
    → (y.code_length == 0) ≡ false
    → k < y.recursion_limit
    → is_taken (y.random_code (s.drawn + k)) s.vouchers ≡ false
    → (code : Text) × (s' : Store) × (generate_code_string y s ≡ (ok code, s'))
      × (is_taken code s'.vouchers ≡ false)
      × (s'.vouchers ≡ s.vouchers)
unfolding generate_code_string
generate_code_string-free y k s some_length h free =
    let (code, s', returned, unused, kept) = generate-free y k y.recursion_limit s h free in
    (code, s', rw (generate_code_string, some_length) returned, unused, kept)
