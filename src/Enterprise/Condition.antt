-- ===== src/Enterprise/Condition.antt =====
-- `EnterpriseCustomerCondition.is_satisfied`. A `return False` in its loop is `none`.
use edx_ecommerce.Base.{
  ℕ, ◌+◌, Bool, true, false, not, ◌&&◌, Option, none, some, List, [], ◌∷◌, ◌==◌, if◌then◌else◌, ⊤,
}
use edx_ecommerce.Base.Action.{
  Result, ok, raised, Exc, connection_error, timeout, http_error, key_error, Action, pure, call,
  modify, ◌>>◌,
}
use edx_ecommerce.Offer.{ConditionalOffer, OfferType, is_site}
use edx_ecommerce.Enterprise.Rows.{Line, User, Basket, Services, World}
use edx_ecommerce.Enterprise.Limits.{
  is_offer_max_discount_available, is_offer_max_user_discount_available,
}

-- `ReqConnectionError`, `KeyError`, `HTTPError` or `Timeout`.
abbrev pub is_caught : Exc → Bool
is_caught connection_error = true
is_caught timeout = true
is_caught key_error = true
is_caught http_error = true
is_caught _ = false

-- What one round of the loop gives the rounds after it.
abbrev pub then_ids : Result ℕ → Result (Option (List ℕ)) → Result (Option (List ℕ))
then_ids (ok key) (ok (some ids)) = ok (some (key ∷ ids))
then_ids (ok key) r = r
then_ids (raised e) r = if is_caught e then ok none else raised e

abbrev pub then_course : Option ℕ → Result (Option (List ℕ)) → Result (Option (List ℕ))
then_course none r = ok none
then_course (some id) r = then_ids (ok id) r

-- The loop that collects `course_ids`.
unfoldable pub course_ids : ConditionalOffer → List Line → Result (Option (List ℕ))
course_ids offer [] = ok (some [])
course_ids offer (l ∷ ls) =
    let rest = course_ids offer ls in
    if l.is_course_entitlement_product
    then if is_site offer.offer_type && not l.is_executive_education_2u_product
      then ok none
      else then_ids l.course_info rest
    else then_course l.course rest

-- The request's catalog, or else the one kept with the basket, if it is a UUID. (The attribute type
-- that the lookup creates when it is missing is left out.)
unfoldable pub get_enterprise_catalog_uuid_from_basket : Services → Basket → Option ℕ
get_enterprise_catalog_uuid_from_basket v b = elim b.request_catalog [
  | some text ↦ v.parse_uuid text
  | none ↦ elim b.attribute_catalog [ some text ↦ v.parse_uuid text | none ↦ none ]
]

abbrev pub is_same : Option ℕ → ℕ → Bool
is_same none b = false
is_same (some a) b = a == b

-- The user belongs to another enterprise than the condition's.
abbrev pub is_of_other_enterprise : ConditionalOffer → Option ℕ → Bool
is_of_other_enterprise offer none = false
is_of_other_enterprise offer (some e) = not (is_same offer.enterprise_customer_uuid e)

abbrev pub is_other_catalog : ConditionalOffer → Option ℕ → Bool
is_other_catalog offer none = false
is_other_catalog offer (some c) = not (is_same offer.enterprise_customer_catalog_uuid c)

abbrev pub is_voucher : OfferType → Bool
is_voucher OfferType.voucher = true
is_voucher _ = false

-- A learner with a voucher is linked to the condition's enterprise, and told to log in again.
unfoldable pub link : Services → ConditionalOffer → User → Action World ⊤
link v offer user w =
    (call (v.link_user offer.enterprise_customer_uuid user)
        >> modify (λ w. record w {
          links = (offer.enterprise_customer_uuid, user.id) ∷ w.links;
          warnings = w.warnings + 1;
        }))
      w

-- The checks once the course ids are known and the user is not of another enterprise.
unfoldable pub check_limits : Services → ConditionalOffer → Basket → User → List ℕ → Result Bool
unfolding is_offer_max_discount_available is_offer_max_user_discount_available
    get_enterprise_catalog_uuid_from_basket
check_limits v offer b user ids =
    if is_other_catalog offer (get_enterprise_catalog_uuid_from_basket v b)
    then ok false
    else elim (v.catalog_contains_course_runs ids offer.enterprise_customer_uuid
        offer.enterprise_customer_catalog_uuid) [
          | raised e ↦ (if is_caught e then ok false else raised e)
          | ok contains ↦ ok (
              (contains && is_offer_max_discount_available v b offer)
              && is_offer_max_user_discount_available v user.id b offer)
        ]

unfoldable pub check_user : Services → ConditionalOffer → Basket → User → List ℕ → Action World Bool
unfolding link check_limits
check_user v offer b user ids w =
    if is_of_other_enterprise offer (v.enterprise_of_user user)
    then ((if is_voucher offer.offer_type then link v offer user else pure tt) >> pure false) w
    else (check_limits v offer b user ids, w)

unfoldable pub check_ids :
    Services → ConditionalOffer → Basket → User → Result (Option (List ℕ)) → Action World Bool
unfolding check_user
check_ids v offer b user (raised e) w = (raised e, w)
check_ids v offer b user (ok none) w = (ok false, w)
check_ids v offer b user (ok (some ids)) w = check_user v offer b user ids w

unfoldable pub is_satisfied : Services → ConditionalOffer → Basket → Action World Bool
unfolding course_ids check_ids
is_satisfied v offer b w = elim b.owner [
  | none ↦ (ok false, w)
  | some user ↦ check_ids v offer b user (course_ids offer b.lines) w
]
