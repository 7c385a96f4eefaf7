-- ===== src/Offer/Unvisited.antt =====
-- Which lines `Benefit.get_applicable_lines` asks for, and which it does not visit.
use edx_ecommerce.Base.{
  ℕ, ◌≡◌, refl, ap, sym, ◌∙◌, Bool, true, false, not, ◌&&◌, ◌||◌, Option, none, some, List, [], ◌∷◌,
  ◌++◌, ==-refl, is_some, all, keep, Bool-cases, inl, inr, arith,
}
use mathlib.Core.Bool.{and-eq-true_iff}
use mathlib.Core.List.{append-nil, append_assoc}
use edx_ecommerce.Base.Action.{Result, ok}
use edx_ecommerce.Offer.Applicable.{
  Line, Cache, accepted, filter_for_paid_course_products, Identified, ask_for, identify,
  identify_uncached_product_identifiers, resolve, priced, get_applicable_lines,
}

abbrev pub is_paid : (ℕ → Bool) → Line → Bool
is_paid accepts l =
    (l.is_seat_product || l.is_course_entitlement_product) && accepted accepts l.certificate_type

-- The cache does not say that the line is outside the range.
abbrev pub is_not_excluded : Cache → Line → Bool
is_not_excluded cache l = elim (cache l.identifier) [ some false ↦ false | _ ↦ true ]

abbrev pub is_uncached : Cache → Line → Bool
is_uncached cache l = not (is_some (cache l.identifier))

abbrev pub asked : Cache → List Line → List Line → Identified
asked cache before lines = record {
  course_run_ids = keep (λ l. is_uncached cache l && l.is_seat_product) lines;
  course_uuids = keep (λ l. is_uncached cache l && not l.is_seat_product) lines;
  applicable_lines = before ++ lines;
}

-- `asked` of the lines to come, with all the lines kept.
abbrev asked_after : Cache → (before lines : List Line) → Line → Identified
asked_after cache before lines l = record (asked cache before lines) {
  applicable_lines = before ++ l ∷ lines;
}

passed :
    (cache : Cache) (before lines : List Line) (l : Line)
    → asked cache (before ++ l ∷ []) lines ≡ asked_after cache before lines l
passed cache before lines l =
    ap (λ xs. record (asked cache before lines) { applicable_lines = xs })
      (append_assoc before (l ∷ []) lines)

asking :
    (cache : Cache) (before lines : List Line) (l : Line)
    → cache l.identifier ≡ none
    → ask_for l (asked_after cache before lines l) ≡ asked cache before (l ∷ lines)
asking cache before lines l e = elim (Bool-cases l.is_seat_product) [
  | inl k ↦ rw (e, k) refl
  | inr k ↦ rw (e, k) refl
]

uncached_step :
    (cache : Cache) (before lines : List Line) (l : Line)
    → cache l.identifier ≡ none
    → identify cache before false (l ∷ lines)
      ≡ ask_for l (identify cache (before ++ l ∷ []) false lines)
unfolding identify
uncached_step cache before lines l e = rw (identify, e) refl

cached_step :
    (cache : Cache) (before lines : List Line) (l : Line)
    → cache l.identifier ≡ some true
    → identify cache before false (l ∷ lines) ≡ identify cache (before ++ l ∷ []) false lines
unfolding identify
cached_step cache before lines l e = rw (identify, e) refl

visited :
    (cache : Cache) (before lines : List Line) (l : Line) (answer : Option Bool)
    → cache l.identifier ≡ answer
    → is_not_excluded cache l ≡ true
    → identify cache (before ++ l ∷ []) false lines ≡ asked cache (before ++ l ∷ []) lines
    → identify cache before false (l ∷ lines) ≡ asked cache before (l ∷ lines)
unfolding identify
visited cache before lines l none e h q =
    uncached_step cache before lines l e
    ∙ ap (ask_for l) (q ∙ passed cache before lines l)
    ∙ asking cache before lines l e
visited cache before lines l (some true) e h q =
    cached_step cache before lines l e ∙ q ∙ passed cache before lines l ∙ rw e refl
visited cache before lines l (some false) e h q = ground (arith, e, h)

identify-asked :
    (cache : Cache) (before lines : List Line)
    → all (is_not_excluded cache) lines ≡ true
    → identify cache before false lines ≡ asked cache before lines
unfolding identify
identify-asked cache before [] h =
    ap (λ xs. record { course_run_ids = []; course_uuids = []; applicable_lines = xs })
      (sym (append-nil before))
identify-asked cache before (l ∷ lines) h =
    let (h0, h1) =
      (and-eq-true_iff (is_not_excluded cache l) (all (is_not_excluded cache) lines)).0 h in
    visited cache before lines l (cache l.identifier) refl h0
      (identify-asked cache (before ++ l ∷ []) lines h1)

-- Where no line is known to be outside the range, every line stays, and the Discovery Service is
-- asked for exactly those that the cache does not know: the seats by course run, the others by
-- course.
pub identify_uncached_product_identifiers-asked :
    (cache : Cache) (lines : List Line)
    → all (is_not_excluded cache) lines ≡ true
    → identify_uncached_product_identifiers cache lines ≡ asked cache [] lines
unfolding identify_uncached_product_identifiers
identify_uncached_product_identifiers-asked cache lines h = identify-asked cache [] lines h

both_paid :
    (accepts : ℕ → Bool) (a b : Line)
    → is_paid accepts a ≡ true
    → is_paid accepts b ≡ true
    → filter_for_paid_course_products accepts (a ∷ b ∷ []) ≡ a ∷ b ∷ []
unfolding filter_for_paid_course_products
both_paid accepts a b pa pb = ground (arith)

unvisited :
    (cache : Cache) (a b : Line)
    → cache a.identifier ≡ some false
    → identify_uncached_product_identifiers cache (a ∷ b ∷ [])
      ≡ record { course_run_ids = []; course_uuids = []; applicable_lines = b ∷ [] }
unfolding identify_uncached_product_identifiers identify
unvisited cache a b c = rw (identify_uncached_product_identifiers, identify, c, ==-refl a.id) refl

abbrev prices_of : Result (List Line) × Cache → Result (List (ℕ × Line)) × Cache
prices_of q = (priced q.0, q.1)

-- Two paid lines of which the first is known to be outside the range: the second is applicable, at
-- its price, whatever the cache knows of it, and the Discovery Service is not asked.
pub get_applicable_lines-unvisited :
    (accepts : ℕ → Bool) (discovery : List ℕ → List ℕ → Result (ℕ → Option Bool)) (cache : Cache)
    (a b : Line)
    → is_paid accepts a ≡ true
    → is_paid accepts b ≡ true
    → cache a.identifier ≡ some false
    → get_applicable_lines accepts discovery (a ∷ b ∷ []) cache ≡ (ok ((b.price, b) ∷ []), cache)
unfolding get_applicable_lines resolve
get_applicable_lines-unvisited accepts discovery cache a b pa pb c =
    ap (λ ls. prices_of (resolve discovery (identify_uncached_product_identifiers cache ls) cache))
      (both_paid accepts a b pa pb)
    ∙ ap (λ r. prices_of (resolve discovery r cache)) (unvisited cache a b c)
