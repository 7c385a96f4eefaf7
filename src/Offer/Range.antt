-- ===== src/Offer/Range.antt =====
-- `Range` and `validate_credit_seat_type` of ecommerce/extensions/offer/models.py.
use edx_ecommerce.Base.{
  and_false, any-append, ℕ, ◌≡◌, refl, ap, sym, ◌∙◌, Bool, true, false, not, ◌&&◌, ◌||◌, Option,
  none, some, List, [], ◌∷◌, ◌++◌, ◌==◌, ltb, if◌then◌else◌, is_some, any, all, length, ⊤, arith,
}
use edx_ecommerce.Base.Action.{Result, ok, raised, returns, validation_error, key_error}

pub data SeatType : Type 0 where
  credit professional verified other_type : SeatType

-- `catalog` has the products of its stock records. A blank or zero field is `none`, and
-- `course_seat_types` is split at its commas, and empty when it is blank.
pub record Range : Type 0 where
  pub catalog : Option (List ℕ)
  pub catalog_query : Option ℕ
  pub course_catalog : Option ℕ
  pub enterprise_customer : Option ℕ
  pub course_seat_types : List SeatType

abbrev pub is_credit : SeatType → Bool
is_credit credit = true
is_credit _ = false

-- `ALLOWED_SEAT_TYPES`
abbrev pub is_allowed : SeatType → Bool
is_allowed other_type = false
is_allowed _ = true

unfoldable pub validate_credit_seat_type : List SeatType → Result ⊤
validate_credit_seat_type types =
    if ltb 1 (length types) && any is_credit types
    then raised validation_error
    else if not (all is_allowed types)
    then raised validation_error
    else ok tt

abbrev pub has_types : List SeatType → Bool
has_types [] = false
has_types (t ∷ ts) = true

unfoldable pub clean : Range → Result ⊤
clean r =
    let dynamic = is_some r.catalog_query || is_some r.course_catalog in
    let types = has_types r.course_seat_types in
    if is_some r.catalog && ((is_some r.course_catalog || is_some r.catalog_query) || types)
    then raised validation_error
    else if is_some r.catalog_query && is_some r.course_catalog
    then raised validation_error
    else if dynamic && not types
    then raised validation_error
    else if types && not dynamic
    then raised validation_error
    else if types
    then validate_credit_seat_type r.course_seat_types
    else ok tt

-- A product, as far as ranges ask it: its id, its course run, and whether its certificate type is in
-- the text of the range's seat types.
pub record Product : Type 0 where
  pub id : ℕ
  pub course_id : ℕ
  pub has_seat_type : Bool

abbrev pub in_response : Option Bool → (otherwise : Bool) → Result Bool
in_response none otherwise = raised key_error
in_response (some b) otherwise = ok (b || otherwise)

abbrev pub by_response :
    (course_id : ℕ) → (otherwise : Bool) → Result (ℕ → Option Bool) → Result Bool
by_response c otherwise (ok courses) = in_response (courses c) otherwise
by_response c otherwise (raised e) = raised e

abbrev pub by_catalog : ℕ → Option (List ℕ) → (otherwise : Bool) → Result Bool
by_catalog p none otherwise = ok otherwise
by_catalog p (some products) otherwise = ok (any (λ q. p == q) products || otherwise)

-- `super_contains` is the answer of Oscar's `contains_product`, and `response` the courses in the
-- answer of `catalog_contains_product`.
unfoldable pub contains_product :
    (super_contains : Bool) → (response : Result (ℕ → Option Bool)) → Range → Product → Result Bool
contains_product super_contains response r p =
    if is_some r.course_catalog && has_types r.course_seat_types
    then if p.has_seat_type
      then by_response p.course_id super_contains response
      else ok super_contains
    else by_catalog p.id r.catalog super_contains

abbrev pub catalog_products : Option (List ℕ) → List ℕ
catalog_products none = []
catalog_products (some products) = products

unfoldable pub all_products : (super_products : List ℕ) → Range → List ℕ
all_products super_products r =
    if (is_some r.catalog_query || is_some r.course_catalog) && has_types r.course_seat_types
    then []
    else catalog_products r.catalog ++ super_products

-- Seat types that may stand together: credit alone, or any of the other two.
abbrev pub is_compatible : List SeatType → Bool
is_compatible (credit ∷ []) = true
is_compatible types = all (λ t. is_allowed t && not (is_credit t)) types

-- A range is static, without the fields for a dynamic catalog, or dynamic: with no static catalog,
-- exactly one of the two dynamic ones, and seat types that may stand together.
abbrev pub is_static : Range → Bool
is_static r =
    (not (is_some r.catalog_query) && not (is_some r.course_catalog))
    && not (has_types r.course_seat_types)

abbrev pub exactly_one : Bool → Bool → Bool
exactly_one true b = not b
exactly_one false b = b

abbrev pub is_dynamic : Range → Bool
is_dynamic r =
    (not (is_some r.catalog) && exactly_one (is_some r.catalog_query) (is_some r.course_catalog))
    && (has_types r.course_seat_types && is_compatible r.course_seat_types)

compatible_many :
    (ts : List SeatType)
    → (not (any is_credit ts) && all is_allowed ts)
      ≡ all (λ t. is_allowed t && not (is_credit t)) ts
compatible_many [] = refl
compatible_many (credit ∷ ts) = refl
compatible_many (professional ∷ ts) = compatible_many ts
compatible_many (verified ∷ ts) = compatible_many ts
compatible_many (other_type ∷ ts) = ground arith

returns-validate : (ts : List SeatType) → returns (validate_credit_seat_type ts) ≡ is_compatible ts
unfolding validate_credit_seat_type
returns-validate [] = refl
returns-validate (credit ∷ []) = refl
returns-validate (credit ∷ t ∷ ts) = ground arith
returns-validate (professional ∷ []) = refl
returns-validate (professional ∷ t ∷ ts) = ground (arith, compatible_many (t ∷ ts))
returns-validate (verified ∷ []) = refl
returns-validate (verified ∷ t ∷ ts) = ground (arith, compatible_many (t ∷ ts))
returns-validate (other_type ∷ ts) = ground arith

-- A range passes `clean` exactly when it is static or dynamic.
pub clean-returns : (r : Range) → returns (clean r) ≡ (is_static r || is_dynamic r)
unfolding clean
clean-returns r = ground (arith, returns-validate r.course_seat_types)

by_static :
    (p : ℕ) (super_contains : Bool) (super_products : List ℕ) (c : Option (List ℕ))
    → super_contains ≡ any (λ q. p == q) super_products
    → by_catalog p c super_contains ≡ ok (any (λ q. p == q) (catalog_products c ++ super_products))
by_static p super_contains super_products none agree = ap ok agree
by_static p super_contains super_products (some products) agree =
    ap (λ b. ok (any (λ q. p == q) products || b)) agree
    ∙ ap ok (sym (any-append (λ q. p == q) products super_products))

-- A range without seat types, where Oscar's own `contains_product` and `all_products` agree on a
-- product: the range contains it exactly when `all_products` lists it.
pub contains_product-all_products :
    (super_contains : Bool) (response : Result (ℕ → Option Bool)) (super_products : List ℕ)
    (r : Range) (p : Product)
    → r.course_seat_types ≡ []
    → super_contains ≡ any (λ q. p.id == q) super_products
    → contains_product super_contains response r p
      ≡ ok (any (λ q. p.id == q) (all_products super_products r))
unfolding contains_product all_products
contains_product-all_products super_contains response super_products r p none_set agree =
    rw
      (
        none_set,
        and_false (is_some r.course_catalog),
        and_false (is_some r.catalog_query || is_some r.course_catalog),
      )
      (by_static p.id super_contains super_products r.catalog agree)
