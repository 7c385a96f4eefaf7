-- ===== src/Mixin/Dynamic.antt =====
-- ecommerce/extensions/offer/dynamic_conditional_offer.py
use edx_ecommerce.Base.{
  ℕ, Bool, false, not, Option, none, some, List, [], ◌∷◌, ◌==◌, ltb, if◌then◌else◌,
}
use edx_ecommerce.Base.Action.{Result, ok, raised, attribute_error}

-- What the token of the discount says: whether the discount is applicable and its percentage, where a
-- key that is missing is `none`.
pub record Claims : Type 0 where
  pub discount_applicable : Option Bool
  pub discount_percent : Option ℕ

-- The request: its method, its parameters by the method, and what the token decodes to.
pub record Request : Type 0 where
  pub is_get : Bool
  pub get_jwt : Option ℕ
  pub post_jwt : Option ℕ
  pub decode : ℕ → Result Claims

abbrev pub decoded : Request → Option ℕ → Result (Option Claims)
decoded r none = ok none
decoded r (some jwt) = elim (r.decode jwt) [ ok c ↦ ok (some c) | raised e ↦ raised e ]

unfoldable pub get_decoded_jwt_discount_from_request : Request → Result (Option Claims)
get_decoded_jwt_discount_from_request r = decoded r (if r.is_get then r.get_jwt else r.post_jwt)

abbrev pub percent_of : Result (Option Claims) → Result (Option ℕ)
percent_of (ok none) = ok none
percent_of (ok (some c)) = ok c.discount_percent
percent_of (raised e) = raised e

unfoldable pub get_percentage_from_request : Request → Result (Option ℕ)
unfolding get_decoded_jwt_discount_from_request
get_percentage_from_request r = percent_of (get_decoded_jwt_discount_from_request r)

abbrev pub by_percent :
    {A : Type 0}
    → Result (Option ℕ)
    → (zero_discount : A) → (apply_percent : ℕ → Result A) → Result A
by_percent (raised e) zero_discount apply_percent = raised e
by_percent (ok none) zero_discount apply_percent = ok zero_discount
by_percent (ok (some p)) zero_discount apply_percent =
    if p == 0 then ok zero_discount else apply_percent p

-- `DynamicPercentageDiscountBenefit.apply`; `apply_percent` is that of Oscar's benefit.
unfoldable pub apply :
    {A : Type 0}
    → (flag : Bool) → Request
    → (zero_discount : A) → (apply_percent : ℕ → Result A) → Result A
unfolding get_percentage_from_request
apply flag r zero_discount apply_percent =
    if not flag
    then ok zero_discount
    else by_percent (get_percentage_from_request r) zero_discount apply_percent

-- `None` and a missing key are falsy.
abbrev pub applicable_of : Result (Option Claims) → Result Bool
applicable_of (raised e) = raised e
applicable_of (ok none) = ok false
applicable_of (ok (some c)) = elim c.discount_applicable [ none ↦ ok false | some b ↦ ok b ]

-- `lines` tells of each line whether its product is a seat; a basket without lines has no first one.
unfoldable pub check_lines : List Bool → Request → Result Bool
unfolding get_decoded_jwt_discount_from_request
check_lines [] r = raised attribute_error
check_lines (is_seat ∷ lines) r =
    if not is_seat then ok false else applicable_of (get_decoded_jwt_discount_from_request r)

-- `DynamicDiscountCondition.is_satisfied`
unfoldable pub is_satisfied :
    (flag : Bool) → (num_items : ℕ) → (lines : List Bool) → Request → Result Bool
unfolding check_lines
is_satisfied flag num_items lines r =
    if not flag then ok false else if ltb 1 num_items then ok false else check_lines lines r
