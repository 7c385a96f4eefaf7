-- ===== src/Coupon/Names.antt =====
-- The names of the offers of a coupon: `generate_offer_name` of
-- ecommerce/extensions/voucher/utils.py.
use edx_ecommerce.Base.{
  ℕ, zero, suc, ◌≡◌, ◌≢◌, refl, ap, sym, ◌∙◌, Bool, false, Option, none, some, [], ◌∷◌, ◌++◌, ◌==◌,
  length, length-append, if◌then◌else◌, arith,
}
use edx_ecommerce.Order.Text.{Text, digits, parse_int, parse_int-digits}
use edx_ecommerce.Coupon.Create.{numbered, generate_offer_name}

abbrev some_of : Option ℕ → ℕ
some_of none = 0
some_of (some n) = n

digits-injective : (m n : ℕ) → digits m ≡ digits n → m ≡ n
digits-injective m n h = ap some_of (sym (parse_int-digits m) ∙ ap parse_int h ∙ parse_int-digits n)

-- What is left of a text behind one of the length `n`, and before the last `n` characters.
abbrev behind : ℕ → Text → Text
behind zero s = s
behind (suc n) [] = []
behind (suc n) (c ∷ s) = behind n s

behind-append : (s t : Text) → behind (length s) (s ++ t) ≡ t
behind-append [] t = refl
behind-append (c ∷ s) t = behind-append s t

append_cancel : (s t u : Text) → s ++ t ≡ s ++ u → t ≡ u
append_cancel s t u h = sym (behind-append s t) ∙ ap (behind (length s)) h ∙ behind-append s u

abbrev front : ℕ → Text → Text
front zero s = []
front (suc n) [] = []
front (suc n) (c ∷ s) = c ∷ front n s

front-append : (s t : Text) → front (length s) (s ++ t) ≡ s
front-append [] t = refl
front-append (c ∷ s) t = ap (λ u. c ∷ u) (front-append s t)

append_cancel_right : (s t u : Text) → s ++ u ≡ t ++ u → s ≡ t
append_cancel_right s t u h =
    let same : length s ≡ length t =
      omega (arith, length-append s u, length-append t u, ap length h) in
    sym (front-append s u)
    ∙ ap (front (length s)) h
    ∙ ap (λ n. front n (t ++ u)) same
    ∙ front-append t u

body : Text → ℕ → Text
unfolding digits
body base n = if n == 0 then base else numbered base (digits n)

numbered-injective : (base s t : Text) → numbered base s ≡ numbered base t → s ≡ t
numbered-injective base s t h =
    append_cancel_right s t (b']' ∷ []) (ap (behind 2) (append_cancel base _ _ h))

longer : (base s : Text) → base ≢ numbered base s
longer base s h = omega (arith, ap length h, length-append base (32 ∷ b'[' ∷ (s ++ b']' ∷ [])))

body_of_suc : (base : Text) (n : ℕ) → body base (suc n) ≡ numbered base (digits (suc n))
unfolding body
body_of_suc base n =
    let e : (suc n == 0) ≡ false = ground arith in
    ap (λ b. if b then base else numbered base (digits (suc n))) e

body-injective : (base : Text) (m n : ℕ) → body base m ≡ body base n → m ≡ n
unfolding body
body-injective base zero zero h = refl
body-injective base zero (suc n) h =
    ground (arith, longer base (digits (suc n)) (h ∙ body_of_suc base n))
body-injective base (suc m) zero h =
    ground (arith, longer base (digits (suc m)) (sym h ∙ body_of_suc base m))
body-injective base (suc m) (suc n) h =
    digits-injective (suc m) (suc n)
      (numbered-injective base _ _ (sym (body_of_suc base m) ∙ h ∙ body_of_suc base n))

pub generate_offer_name-injective :
    (base : Text) (m n : ℕ) (is_enterprise : Bool)
    → generate_offer_name base m is_enterprise ≡ generate_offer_name base n is_enterprise
    → m ≡ n
unfolding generate_offer_name body
generate_offer_name-injective base m n is_enterprise h =
    body-injective base m n (append_cancel_right (body base m) (body base n) _ h)
