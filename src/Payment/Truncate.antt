-- ===== src/Payment/Truncate.antt =====
-- `middle_truncate` and `clean_field_value` of ecommerce/extensions/payment/utils.py. Texts are lists
-- of code points.
use Prim.Native.Nat.{zero, suc}
use edx_ecommerce.Base.{
  ℕ, ◌+◌, ◌-◌, ◌/◌, ◌≤◌, ◌<◌, ◌≡◌, refl, Bool, false, not, ◌||◌, List, [], ◌∷◌, ◌++◌, ◌==◌, leb,
  ltb, length, keep, if◌then◌else◌, Bool-cases, inl, inr, arith, length-append,
}
use edx_ecommerce.Base.Action.{Result, ok, raised, value_error}

abbrev pub Text : Type 0
Text = List ℕ

-- `s[:n]`
unfoldable pub take : ℕ → Text → Text
take zero s = []
take (suc n) [] = []
take (suc n) (c ∷ s) = c ∷ take n s

-- `s[n:]`
unfoldable pub drop : ℕ → Text → Text
drop zero s = s
drop (suc n) [] = []
drop (suc n) (c ∷ s) = drop n s

-- `s[-n:]`: for 0 it is the whole text.
unfoldable pub last : ℕ → Text → Text
unfolding drop
last n s = if n == 0 then s else drop (length s - n) s

-- `indicator` is the translation of `...`.
unfoldable pub middle_truncate : (indicator : Text) → Text → (chars : ℕ) → Result Text
unfolding take last
middle_truncate indicator s chars =
    if leb (length s) chars
    then ok s
    else if ltb chars (length indicator)
    then raised value_error
    else let slice_size = (chars - length indicator) / 2 in
      ok (take slice_size s ++ indicator ++ last slice_size s)

-- The characters `^`, `:`, `"` and `'`.
abbrev pub is_special : ℕ → Bool
is_special c = ((c == 94) || (c == 58)) || ((c == 34) || (c == 39))

abbrev pub clean_field_value : Text → Text
clean_field_value = keep (λ c. not (is_special c))

length-take : (n : ℕ) (s : Text) → length (take n s) ≤ n
unfolding take
length-take zero s = omega arith
length-take (suc n) [] = omega arith
length-take (suc n) (c ∷ s) = omega (arith, length-take n s)

length-drop : (n : ℕ) (s : Text) → length (drop n s) ≡ length s - n
unfolding drop
length-drop zero s = omega arith
length-drop (suc n) [] = omega arith
length-drop (suc n) (c ∷ s) = omega (arith, length-drop n s)

length-last : (n : ℕ) (s : Text) → (n == 0) ≡ false → length (last n s) ≤ n
unfolding last
length-last n s h = rw (last, h) (ground (arith, length-drop (length s - n) s))

length-parts :
    (n : ℕ) (indicator s : Text)
    → (n == 0) ≡ false
    → length (take n s ++ indicator ++ last n s) ≤ n + n + length indicator
length-parts n indicator s h = omega (
  arith,
  length-append (take n s ++ indicator) (last n s),
  length-append (take n s) indicator,
  length-take n s,
  length-last n s h,
)

abbrev pub IsShort : (chars : ℕ) → Result Text → Type 0
IsShort chars r = (t : Text) × (r ≡ ok t) × (length t ≤ chars)

-- With room for the indicator and two characters more, the text that `middle_truncate` returns is no
-- longer than `chars`.
pub middle_truncate-IsShort :
    (indicator s : Text) (chars : ℕ)
    → length indicator + 2 ≤ chars
    → IsShort chars (middle_truncate indicator s chars)
unfolding middle_truncate
middle_truncate-IsShort indicator s chars h = elim (Bool-cases (leb (length s) chars)) [
  | inl e ↦ (s, rw (middle_truncate, e) refl, ground (arith, e))
  | inr e ↦
      let n = (chars - length indicator) / 2 in
      let some_room : (n == 0) ≡ false = ground (arith, h) in
      let fits : ltb chars (length indicator) ≡ false = ground (arith, h) in
      (
        take n s ++ indicator ++ last n s,
        rw (middle_truncate, e, fits) refl,
        omega (arith, h, length-parts n indicator s some_room),
      )
]

-- With room for the indicator and at most one character more, a text that is too long comes back
-- whole, behind the indicator.
pub middle_truncate-longer :
    (indicator s : Text) (chars : ℕ)
    → length indicator ≤ chars
    → chars < length indicator + 2
    → chars < length s
    → middle_truncate indicator s chars ≡ ok (indicator ++ s)
unfolding middle_truncate take last
middle_truncate-longer indicator s chars h k l =
    let too_long : leb (length s) chars ≡ false = ground (arith, l) in
    let fits : ltb chars (length indicator) ≡ false = ground (arith, h) in
    let no_room : (chars - length indicator) / 2 ≡ 0 = omega (arith, h, k) in
    rw (middle_truncate, too_long, fits, no_room) refl
