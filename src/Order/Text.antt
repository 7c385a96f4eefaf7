-- ===== src/Order/Text.antt =====
-- Texts as lists of code points: `str(n)`, `int(s)` on digits, and `split('-')`.
use Prim.Native.Nat.{zero, suc}
use edx_ecommerce.Base.{
  ℕ, ◌+◌, ◌-◌, ◌*◌, ◌/◌, ◌%◌, ◌≤◌, ◌≡◌, refl, ap, sym, ◌∙◌, Bool, true, false, ◌&&◌, Option, none,
  some, List, [], ◌∷◌, ◌++◌, ◌==◌, leb, if◌then◌else◌, all, not, Bool-cases, inl, inr, arith, ==→≡,
}

abbrev pub Text : Type 0
Text = List ℕ

abbrev pub dash : ℕ
dash = b'-'

-- The digits of `n` in front of `out`; each round takes one, so `n` rounds are enough.
pub emit : (rounds n : ℕ) → Text → Text
emit zero n out = out
emit (suc r) n out = elim (n == 0) [ true ↦ out | false ↦ emit r (n / 10) ((b'0' + n % 10) ∷ out) ]

-- `str(n)`
unfoldable pub digits : ℕ → Text
unfolding emit
digits n = if n == 0 then b'0' ∷ [] else emit n n []

abbrev pub is_digit : ℕ → Bool
is_digit c = leb b'0' c && leb c b'9'

pub scan : Text → ℕ → Option ℕ
scan [] n = some n
scan (c ∷ s) n = elim (is_digit c) [ true ↦ scan s (10 * n + (c - b'0')) | false ↦ none ]

abbrev pub is_filled : Text → Bool
is_filled [] = false
is_filled (c ∷ s) = true

-- `int(s)`, where a text that is not all digits is a `ValueError`.
unfoldable pub parse_int : Text → Option ℕ
unfolding scan
parse_int s = elim (is_filled s) [ true ↦ scan s 0 | false ↦ none ]

-- `s.split('-')`: the first part, and the parts behind the first dash.
unfoldable pub split : Text → Text × List Text
split [] = ([], [])
split (c ∷ s) =
    let (part, parts) = split s in if c == dash then ([], part ∷ parts) else (c ∷ part, parts)

abbrev pub lacks_dash : Text → Bool
lacks_dash = all (λ c. not (c == dash))

scan_digit : (n : ℕ) (out : Text) → scan ((b'0' + n % 10) ∷ out) (n / 10) ≡ scan out n
unfolding scan
scan_digit n out =
    let d : is_digit (b'0' + n % 10) ≡ true = ground arith in
    let e : 10 * (n / 10) + (b'0' + n % 10 - b'0') ≡ n = omega arith in
    ap
      (λ b. elim b as (λ b. Option ℕ) [
        | true ↦ scan out (10 * (n / 10) + (b'0' + n % 10 - b'0'))
        | false ↦ none
      ])
      d
    ∙ ap (scan out) e

is_filled-emit : (r n : ℕ) (c : ℕ) (out : Text) → is_filled (emit r n (c ∷ out)) ≡ true
unfolding emit
is_filled-emit zero n c out = refl
is_filled-emit (suc r) n c out = ground (arith, is_filled-emit r (n / 10) (b'0' + n % 10) (c ∷ out))

scan-emit : (r n : ℕ) (out : Text) → n ≤ r → scan (emit r n out) 0 ≡ scan out n
unfolding emit
scan-emit zero n out h = let e : n ≡ 0 = omega (arith, h) in ap (scan out) (sym e)
scan-emit (suc r) n out h = elim (Bool-cases (n == 0)) [
  | inl e ↦ rw (emit, e) (ap (scan out) (sym (==→≡ n 0 e)))
  | inr e ↦
      rw (emit, e)
        (scan-emit r (n / 10) ((b'0' + n % 10) ∷ out) (ground (arith, h, e)) ∙ scan_digit n out)
]

filled : (n : ℕ) → (n == 0) ≡ false → is_filled (emit n n []) ≡ true
unfolding emit
filled zero e = cc
filled (suc n) e = rw (emit, e) (is_filled-emit n (suc n / 10) (b'0' + suc n % 10) [])

pub parse_int-digits : (n : ℕ) → parse_int (digits n) ≡ some n
unfolding parse_int digits
parse_int-digits n = elim (Bool-cases (n == 0)) [
  | inl e ↦ rw (digits, e) (ap some (sym (==→≡ n 0 e)))
  | inr e ↦ rw (digits, e) (rw (parse_int, filled n e) (scan-emit n n [] (omega arith)))
]

pub split-append :
    (p r : Text) → lacks_dash p ≡ true → split (p ++ dash ∷ r) ≡ (p, (split r).0 ∷ (split r).1)
unfolding split
split-append [] r h = refl
split-append (c ∷ p) r h = ground (arith, split-append p r)

pub split_lem : (p : Text) → lacks_dash p ≡ true → split p ≡ (p, [])
unfolding split
split_lem [] h = refl
split_lem (c ∷ p) h = ground (arith, split_lem p)

emit-lacks_dash : (r n : ℕ) (out : Text) → lacks_dash out ≡ true → lacks_dash (emit r n out) ≡ true
unfolding emit
emit-lacks_dash zero n out h = h
emit-lacks_dash (suc r) n out h = elim (Bool-cases (n == 0)) [
  | inl e ↦ rw (emit, e) h
  | inr e ↦ rw (emit, e) (emit-lacks_dash r (n / 10) ((b'0' + n % 10) ∷ out) (ground (arith, h)))
]

pub digits-lacks_dash : (n : ℕ) → lacks_dash (digits n) ≡ true
unfolding digits
digits-lacks_dash n = ground (arith, emit-lacks_dash n n [] refl)
