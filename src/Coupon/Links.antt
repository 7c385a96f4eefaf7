-- ===== src/Coupon/Links.antt =====
-- The offers of a coupon by their numbers, and the links of its vouchers to them:
-- ecommerce/extensions/voucher/utils.py.
use edx_ecommerce.Base.{
  ℕ, zero, suc, ◌+◌, ◌<◌, ◌≡◌, ◌≢◌, refl, ap, ◌∙◌, true, List, [], ◌∷◌, ◌++◌, length, All, arith,
}
use edx_ecommerce.Base.Action.{ok}
use edx_ecommerce.Order.Text.{Text}
use edx_ecommerce.Coupon.Rows.{VoucherRow, Link}
use edx_ecommerce.Coupon.Create.{generate_offer_name, nth, offer_at}
use edx_ecommerce.Coupon.Names.{generate_offer_name-injective}

-- The names of the offers from the number `i` on, and the links of the vouchers to them.
abbrev pub names : (base : Text) → (n i : ℕ) → List Text
names base zero i = []
names base (suc n) i = generate_offer_name base i true ∷ names base n (suc i)

abbrev pub own_links : (base : Text) → (i : ℕ) → List VoucherRow → List Link
own_links base i [] = []
own_links base i (v ∷ vs) =
    record { voucher = v.code; offer = generate_offer_name base i true } ∷ own_links base (suc i) vs

pub own_links-append :
    (base : Text) (i : ℕ) (vs : List VoucherRow) (v : VoucherRow)
    → own_links base i (vs ++ v ∷ [])
      ≡ own_links base i vs
        ++ record { voucher = v.code; offer = generate_offer_name base (i + length vs) true } ∷ []
own_links-append base i [] v =
    ap (λ k. record { voucher = v.code; offer = generate_offer_name base k true } ∷ [])
      (omega arith)
own_links-append base i (w ∷ vs) v =
    ap (λ ls. record { voucher = w.code; offer = generate_offer_name base i true } ∷ ls)
      (own_links-append base (suc i) vs v
        ∙ ap
            (λ k.
              own_links base (suc i) vs
              ++ record { voucher = v.code; offer = generate_offer_name base k true } ∷ [])
            (omega arith))

nth-names :
    (base : Text) (n i k : ℕ)
    → k < n
    → nth (names base n i) k ≡ ok (generate_offer_name base (i + k) true)
unfolding nth
nth-names base zero i k h = ground (arith, h)
nth-names base (suc n) i zero h = ap (λ m. ok (generate_offer_name base m true)) (omega arith)
nth-names base (suc n) i (suc k) h =
    nth-names base n (suc i) k (omega (arith, h))
    ∙ ap (λ m. ok (generate_offer_name base m true)) (omega arith)

pub offer_at-names :
    (base : Text) (n k : ℕ)
    → k < n
    → offer_at (names base n 0) k ≡ ok (generate_offer_name base k true)
offer_at-names base zero k h = ground (arith, h)
offer_at-names base (suc zero) zero h = refl
offer_at-names base (suc zero) (suc k) h = ground (arith, h)
offer_at-names base (suc (suc n)) k h =
    nth-names base (suc (suc n)) 0 k h
    ∙ ap (λ m. ok (generate_offer_name base m true)) (omega arith)

-- No two of the links lead to the same offer.
abbrev pub IsApart : List Link → Type 0
IsApart [] = Unit
IsApart (l ∷ ls) = All (λ (k : Link). l.offer ≢ k.offer) ls × IsApart ls

own_links-later :
    (base : Text) (i j : ℕ) (vs : List VoucherRow)
    → i < j
    → All (λ (l : Link). generate_offer_name base i true ≢ l.offer) (own_links base j vs)
own_links-later base i j [] h = tt
own_links-later base i j (v ∷ vs) h = (
  λ e. omega (arith, h, generate_offer_name-injective base i j true e),
  own_links-later base i (suc j) vs (omega (arith, h)),
)

pub own_links-IsApart : (base : Text) (i : ℕ) (vs : List VoucherRow) → IsApart (own_links base i vs)
own_links-IsApart base i [] = tt
own_links-IsApart base i (v ∷ vs) =
    (own_links-later base i (suc i) vs (omega arith), own_links-IsApart base (suc i) vs)
