-- ===== src/Offer/Applicable.antt =====
-- `Benefit.get_applicable_lines` and its helpers (ecommerce/extensions/offer/models.py), for a range
-- with a catalog query.
use edx_ecommerce.Base.{
  ℕ, Bool, true, false, ◌&&◌, ◌||◌, Option, none, some, List, [], ◌∷◌, ◌++◌, ◌==◌, if◌then◌else◌,
  keep, map,
}
use edx_ecommerce.Base.Action.{
  Result, ok, raised, Exc, connection_error, timeout, http_error, key_error, other,
}

-- A basket line: whether its product is a seat or a course entitlement, the certificate type if the
-- product has one, the course run's key or the course's UUID, and the price of the first stock
-- record.
pub record Line : Type 0 where
  pub id : ℕ
  pub is_seat_product : Bool
  pub is_course_entitlement_product : Bool
  pub certificate_type : Option ℕ
  pub identifier : ℕ
  pub price : ℕ

-- The answers that the cache holds for the range's query, by identifier.
abbrev pub Cache : Type 0
Cache = ℕ → Option Bool

abbrev pub set_all_tiers : ℕ → Bool → Cache → Cache
set_all_tiers key answer cache k = if k == key then some answer else cache k

-- `accepts` is `certificate_type.lower() in applicable_range.course_seat_types`.
abbrev pub accepted : (ℕ → Bool) → Option ℕ → Bool
accepted accepts none = false
accepted accepts (some t) = accepts t

unfoldable pub filter_for_paid_course_products : (accepts : ℕ → Bool) → List Line → List Line
filter_for_paid_course_products accepts lines =
    keep
      (λ l.
        (l.is_seat_product || l.is_course_entitlement_product)
        && accepted accepts l.certificate_type)
      lines

-- `list.remove`, of a line that the list has; lines are equal when their ids are.
abbrev pub remove : Line → List Line → List Line
remove l [] = []
remove l (x ∷ xs) = if x.id == l.id then xs else x ∷ remove l xs

pub record Identified : Type 0 where
  pub course_run_ids : List Line
  pub course_uuids : List Line
  pub applicable_lines : List Line

abbrev pub ask_for : Line → Identified → Identified
ask_for l r =
    if l.is_seat_product
    then record r { course_run_ids = l ∷ r.course_run_ids }
    else record r { course_uuids = l ∷ r.course_uuids }

-- The `for` loop runs over the list that its body removes lines from: a removal moves the later
-- lines one place to the front, so the line behind the removed one is not visited (`skip`). The
-- list is `before`, which the loop has passed, and the lines to come.
unfoldable pub identify : Cache → (before : List Line) → (skip : Bool) → List Line → Identified
identify cache before skip [] = record {
  course_run_ids = [];
  course_uuids = [];
  applicable_lines = before;
}
identify cache before true (l ∷ lines) = identify cache (before ++ l ∷ []) false lines
identify cache before false (l ∷ lines) = elim (cache l.identifier) [
  | none ↦ ask_for l (identify cache (before ++ l ∷ []) false lines)
  | some true ↦ identify cache (before ++ l ∷ []) false lines
  | some false ↦ identify cache (remove l (before ++ l ∷ [])) true lines
]

unfoldable pub identify_uncached_product_identifiers : Cache → List Line → Identified
unfolding identify
identify_uncached_product_identifiers cache lines = identify cache [] false lines

-- The loop over the answers of the Discovery Service: `response[str(id)]`, cached and applied.
unfoldable pub apply_response :
    (ℕ → Option Bool) → List Line → (applicable : List Line) → Cache → Result (List Line) × Cache
apply_response response [] applicable cache = (ok applicable, cache)
apply_response response (l ∷ ls) applicable cache = elim (response l.identifier) [
  | none ↦ (raised key_error, cache)
  | some true ↦ apply_response response ls applicable (set_all_tiers l.identifier true cache)
  | some false ↦
      apply_response response ls (remove l applicable) (set_all_tiers l.identifier false cache)
]

abbrev is_request_error : Exc → Bool
is_request_error connection_error = true
is_request_error timeout = true
is_request_error http_error = true
is_request_error _ = false

abbrev pub is_none : List Line → Bool
is_none [] = true
is_none (l ∷ ls) = false

-- The request for what the cache does not know; `discovery` is the service's answer, by identifier.
unfoldable pub resolve :
    (discovery : List ℕ → List ℕ → Result (ℕ → Option Bool))
    → Identified
    → Cache
    → Result (List Line) × Cache
unfolding apply_response
resolve discovery r cache =
    if is_none r.course_run_ids && is_none r.course_uuids
    then (ok r.applicable_lines, cache)
    else elim (discovery (map (λ l. l.identifier) r.course_run_ids)
        (map (λ l. l.identifier) r.course_uuids)) [
          | ok response ↦
              apply_response response (r.course_run_ids ++ r.course_uuids) r.applicable_lines cache
          | raised e ↦ (raised (if is_request_error e then other else e), cache)
        ]

abbrev pub priced : Result (List Line) → Result (List (ℕ × Line))
priced (ok lines) = ok (map (λ l. (l.price, l)) lines)
priced (raised e) = raised e

unfoldable pub get_applicable_lines :
    (accepts : ℕ → Bool) (discovery : List ℕ → List ℕ → Result (ℕ → Option Bool))
    (lines : List Line) (cache : Cache)
    → Result (List (ℕ × Line)) × Cache
unfolding filter_for_paid_course_products identify_uncached_product_identifiers resolve
get_applicable_lines accepts discovery lines cache =
    let (r, cache') =
      resolve discovery
        (identify_uncached_product_identifiers cache
          (filter_for_paid_course_products accepts lines))
        cache in
    (priced r, cache')
