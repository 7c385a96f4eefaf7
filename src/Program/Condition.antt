-- ===== src/Program/Condition.antt =====
-- `ProgramCourseRunSeatsCondition` of ecommerce/programs/conditions.py, `get_program` of
-- ecommerce/programs/utils.py and `check_condition_applicability` of
-- ecommerce/extensions/offer/decorators.py.
use edx_ecommerce.Base.{
  ℕ, Bool, true, false, not, ◌&&◌, ◌||◌, Option, none, some, List, [], ◌∷◌, ◌++◌, ◌==◌,
  if◌then◌else◌, any, map, keep,
}
use edx_ecommerce.Base.Action.{Result, ok, raised}
use edx_ecommerce.Program.Rows.{
  Seat, CourseRun, CourseEntitlement, Course, Program, Enrollment, Entitlement, Listing, rows,
  paged, Lookups, is_request_error, member, difference, is_subset,
}

-- The function returns `None` when Discovery cannot be reached.
abbrev pub or_none : Result (Option Program) → Result (Option Program)
or_none (ok p) = ok p
or_none (raised e) = if is_request_error e then ok none else raised e

unfoldable pub get_program : Lookups → Result (Option Program)
get_program v = or_none v.client_program

module _ {A : Type 0} where
  -- The LMS's answer, or the empty list when the request fails.
  abbrev pub or_empty : (empty : A) → Result A → Result A
  or_empty empty (ok a) = ok a
  or_empty empty (raised e) = if is_request_error e then ok empty else raised e

  abbrev pub get_lms_resource_for_user : (empty : A) → Option A → Result A → Result A
  get_lms_resource_for_user empty none answer = or_empty empty answer
  get_lms_resource_for_user empty (some a) answer = ok a

  unfoldable pub get_lms_resource :
      (has_owner : Bool) → (empty : A) → Option A → Result A → Result A
  get_lms_resource has_owner empty cached answer =
      if has_owner then get_lms_resource_for_user empty cached answer else ok empty

abbrev pub traversed : Result Listing → Result (List Entitlement)
traversed (ok (rows es)) = ok es
traversed (ok (paged r)) = r
traversed (raised e) = raised e

abbrev pub with_entitlements :
    List Enrollment → Result (List Entitlement) → Result (List Enrollment × List Entitlement)
with_entitlements enrollments (ok es) = ok (enrollments, es)
with_entitlements enrollments (raised e) = raised e

abbrev pub and_entitlements :
    Result (List Enrollment)
    → Result (List Entitlement)
    → Result (List Enrollment × List Entitlement)
and_entitlements (ok enrollments) es = with_entitlements enrollments es
and_entitlements (raised e) es = raised e

unfoldable pub get_user_ownership_data :
    Lookups → (retrieve_entitlements : Bool) → Result (List Enrollment × List Entitlement)
unfolding get_lms_resource
get_user_ownership_data v retrieve_entitlements =
    if v.enable_partial_program
    then and_entitlements (get_lms_resource v.has_owner [] v.cached_enrollments v.lms_enrollments) (
        if retrieve_entitlements
        then traversed
            (get_lms_resource v.has_owner (rows []) v.cached_entitlements v.lms_entitlements)
        else ok [])
    else ok ([], [])

abbrev pub is_empty {ℓ} : {A : Type ℓ} → List A → Bool
is_empty [] = true
is_empty (x ∷ xs) = false

abbrev pub has_entitlements : Program → Bool
has_entitlements p = any (λ (c : Course). not (is_empty c.entitlements)) p.courses

abbrev pub is_enrolled : (types : List ℕ) → List Enrollment → Course → Bool
is_enrolled types enrollments c =
    any
      (λ (e : Enrollment).
        member e.course_id (map (λ (r : CourseRun). r.key) c.course_runs) && member e.mode types)
      enrollments

abbrev pub is_entitled : (types : List ℕ) → List Entitlement → Course → Bool
is_entitled types entitlements c =
    any (λ (e : Entitlement). (c.uuid == e.course_uuid) && member e.mode types) entitlements

abbrev pub seat_skus : (types : List ℕ) → List CourseRun → List ℕ
seat_skus types [] = []
seat_skus types (r ∷ rs) =
    map (λ (s : Seat). s.sku) (keep (λ (s : Seat). member s.seat_type types) r.seats)
    ++ seat_skus types rs

abbrev pub entitlement_skus : (types : List ℕ) → List CourseEntitlement → List ℕ
entitlement_skus types es =
    map (λ (e : CourseEntitlement). e.sku)
      (keep (λ (e : CourseEntitlement). member e.mode types) es)

-- The SKUs that satisfy a course.
unfoldable pub course_skus : (types : List ℕ) → Course → List ℕ
course_skus types c = seat_skus types c.course_runs ++ entitlement_skus types c.entitlements

abbrev pub owns : (types : List ℕ) → List Enrollment × List Entitlement → Course → Bool
owns types owned c = is_enrolled types owned.0 c || is_entitled types owned.1 c

-- The loop over the courses; `return False` ends it. As `diff` is a part of the set of SKUs, the two
-- are equal when the set is a part of `diff`.
unfoldable pub check_courses :
    (types : List ℕ)
    → List Enrollment × List Entitlement
    → List Course
    → (basket_skus : List ℕ) → Bool
check_courses types owned [] basket_skus = true
check_courses types owned (c ∷ cs) basket_skus = elim (owns types owned c) [
  | true ↦ check_courses types owned cs basket_skus
  | false ↦
      let diff = difference basket_skus (course_skus types c) in
      not (is_empty basket_skus)
      && not (is_subset basket_skus diff)
      && check_courses types owned cs diff
]

abbrev pub check_with :
    Program → (basket_skus : List ℕ) → Result (List Enrollment × List Entitlement) → Result Bool
check_with p basket_skus (ok owned) =
    ok (check_courses p.applicable_seat_types owned p.courses basket_skus)
check_with p basket_skus (raised e) = raised e

abbrev pub check_program : Lookups → (basket_skus : List ℕ) → Result (Option Program) → Result Bool
check_program v basket_skus (ok none) = ok false
check_program v basket_skus (ok (some p)) =
    if p.is_active
    then check_with p basket_skus (get_user_ownership_data v (has_entitlements p))
    else ok false
check_program v basket_skus (raised e) = if is_request_error e then ok false else raised e

-- What the decorator reads of the offer and the basket, and the SKUs of the basket's lines.
pub record ProgramBasket : Type 0 where
  pub is_same_partner : Bool
  pub total_incl_tax : ℕ
  pub skus : List ℕ

-- A basket is empty when it has no lines.
abbrev pub is_applicable : ProgramBasket → Bool
is_applicable b = b.is_same_partner && not (is_empty b.skus) && not (b.total_incl_tax == 0)

unfoldable pub is_satisfied : Lookups → ProgramBasket → Result Bool
unfolding check_courses get_user_ownership_data get_program
is_satisfied v b = if is_applicable b then check_program v b.skus (get_program v) else ok false
