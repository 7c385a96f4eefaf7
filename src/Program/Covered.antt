-- ===== src/Program/Covered.antt =====
-- What a satisfied program condition says of the basket.
use edx_ecommerce.Base.{
  ℕ, ◌≡◌, ◌≢◌, refl, ap, sym, ◌∙◌, Bool, true, false, not, ◌&&◌, Option, none, some, List, [], ◌∷◌,
  ◌==◌, Bool-cases, inl, inr, ◌⊎◌, arith, ==→≡,
}
use edx_ecommerce.Base.Action.{Result, ok, raised}
use edx_ecommerce.Program.Rows.{
  Course, Program, Enrollment, Entitlement, Lookups, member, difference, is_subset,
}
use edx_ecommerce.Program.Condition.{
  course_skus, owns, check_courses, is_satisfied, ProgramBasket, get_user_ownership_data,
  get_program, has_entitlements, is_applicable, check_program, check_with, is_empty,
}

same_member : (x y : ℕ) (ys : List ℕ) → (x == y) ≡ true → member x ys ≡ member y ys
same_member x y ys h = ap (λ z. member z ys) (==→≡ x y h)

member-difference :
    (x : ℕ) (xs ys : List ℕ) → member x (difference xs ys) ≡ (member x xs && not (member x ys))
member-difference x [] ys = refl
member-difference x (z ∷ xs) ys = ground (arith, member-difference x xs ys, same_member x z ys)

-- An element that is not in the second list.
not_subset :
    (xs ys : List ℕ)
    → is_subset xs ys ≡ false
    → (x : ℕ) × (member x xs ≡ true) × (member x ys ≡ false)
not_subset [] ys h = cc
not_subset (x ∷ xs) ys h = elim (Bool-cases (member x ys)) [
  | inl e ↦
      let (y, inside, outside) = not_subset xs ys (ground (arith, h, e)) in
      (y, ground (arith, inside), outside)
  | inr e ↦ (x, ground arith, e)
]

subset_member :
    (x : ℕ) (xs ys : List ℕ) → is_subset xs ys ≡ true → member x xs ≡ true → member x ys ≡ true
subset_member x [] ys h k = cc
subset_member x (z ∷ xs) ys h k = ground (arith, subset_member x xs ys, same_member x z ys)

subset_of :
    (xs ys zs : List ℕ)
    → ((x : ℕ) → member x ys ≡ true → member x zs ≡ true)
    → is_subset xs ys ≡ true
    → is_subset xs zs ≡ true
subset_of [] ys zs f h = refl
subset_of (x ∷ xs) ys zs f h = ground (arith, subset_of xs ys zs f, f x)

-- `picks` has one SKU for each course that is not owned: one of the basket that satisfies it, and
-- that no later course is given.
abbrev pub IsCover :
    (types : List ℕ)
    → List Enrollment × List Entitlement
    → (basket_skus : List ℕ) → List Course
    → (picks : List ℕ) → Type 0
IsCover types owned skus [] picks = picks ≡ []
IsCover types owned skus (c ∷ cs) picks =
    ((owns types owned c ≡ true) × IsCover types owned skus cs picks)
    ⊎ ((x : ℕ) × (rest : List ℕ) × (picks ≡ x ∷ rest)
        × (member x skus ≡ true)
        × (member x (course_skus types c) ≡ true)
        × (member x rest ≡ false)
        × IsCover types owned skus cs rest)

module _ (types : List ℕ) (owned : List Enrollment × List Entitlement) where
  IsCover-more :
      (skus more : List ℕ) (f : (x : ℕ) → member x skus ≡ true → member x more ≡ true)
      (cs : List Course) (picks : List ℕ)
      → IsCover types owned skus cs picks
      → IsCover types owned more cs picks
  IsCover-more skus more f [] picks h = h
  IsCover-more skus more f (c ∷ cs) picks (inl (o, h)) =
      inl (o, IsCover-more skus more f cs picks h)
  IsCover-more skus more f (c ∷ cs) picks (inr (x, rest, e, inside, fits, once, h)) =
      inr (x, rest, e, f x inside, fits, once, IsCover-more skus more f cs rest h)

  check_owned :
      (c : Course) (cs : List Course) (skus : List ℕ)
      → owns types owned c ≡ true
      → check_courses types owned (c ∷ cs) skus ≡ check_courses types owned cs skus
  unfolding check_courses
  check_owned c cs skus o = rw (check_courses, o) refl

  check_open :
      (c : Course) (cs : List Course) (skus : List ℕ)
      → owns types owned c ≡ false
      → check_courses types owned (c ∷ cs) skus ≡ true
      → (is_subset skus (difference skus (course_skus types c)) ≡ false)
        × (check_courses types owned cs (difference skus (course_skus types c)) ≡ true)
  unfolding check_courses
  check_open c cs skus o h =
      let e : check_courses types owned (c ∷ cs) skus ≡ (
          not (is_empty skus)
          && not (is_subset skus (difference skus (course_skus types c)))
          && check_courses types owned cs (difference skus (course_skus types c))) =
        rw (check_courses, o) refl in
      let k = sym e ∙ h in (ground (arith, k), ground (arith, k))

  check_courses-IsCover :
      (cs : List Course) (skus : List ℕ)
      → check_courses types owned cs skus ≡ true
      → (picks : List ℕ) × IsCover types owned skus cs picks × (is_subset picks skus ≡ true)
  unfolding check_courses
  check_courses-IsCover [] skus h = ([], refl, refl)
  check_courses-IsCover (c ∷ cs) skus h = elim (Bool-cases (owns types owned c)) [
    | inl o ↦
        let (picks, cover, inside) =
          check_courses-IsCover cs skus (sym (check_owned c cs skus o) ∙ h) in
        (picks, inl (o, cover), inside)
    | inr o ↦
        let skus_c = course_skus types c in
        let diff = difference skus skus_c in
        let (partial, k) = check_open c cs skus o h in
        let (x, x_in, x_out) = not_subset skus diff partial in
        let (picks, cover, inside) = check_courses-IsCover cs diff k in
        let split : (y : ℕ) → member y diff ≡ true → member y skus ≡ true =
          λ y m. ground (arith, m, member-difference y skus skus_c) in
        (
          x ∷ picks,
          inr (
            x,
            picks,
            refl,
            x_in,
            ground (arith, x_in, x_out, member-difference x skus skus_c),
            ground (arith, x_out, subset_member x picks diff inside),
            IsCover-more diff skus split cs picks cover,
          ),
          ground (arith, x_in, subset_of picks diff skus split inside),
        )
  ]

abbrev is_ok_true : Result Bool → Bool
is_ok_true (ok b) = b
is_ok_true (raised e) = false

-- The program that the condition is about, what the user owns, and a cover of its courses.
abbrev pub IsCovered : Lookups → (skus : List ℕ) → Type 0
IsCovered v skus =
    (p : Program) × (owned : List Enrollment × List Entitlement) × (get_program v ≡ ok (some p))
    × (p.is_active ≡ true)
    × (get_user_ownership_data v (has_entitlements p) ≡ ok owned)
    × (picks : List ℕ) × IsCover p.applicable_seat_types owned skus p.courses picks

with_data :
    (p : Program) (skus : List ℕ) (r : Result (List Enrollment × List Entitlement))
    → is_ok_true (check_with p skus r) ≡ true
    → (owned : List Enrollment × List Entitlement) × (r ≡ ok owned)
      × (check_courses p.applicable_seat_types owned p.courses skus ≡ true)
with_data p skus (ok owned) h = (owned, refl, h)
with_data p skus (raised e) h = cc

with_program :
    (v : Lookups) (skus : List ℕ) (r : Result (Option Program))
    → is_ok_true (check_program v skus r) ≡ true
    → (p : Program) × (r ≡ ok (some p))
      × (p.is_active ≡ true)
      × (is_ok_true (check_with p skus (get_user_ownership_data v (has_entitlements p))) ≡ true)
with_program v skus (ok none) h = cc
with_program v skus (ok (some p)) h = (p, refl, ground (arith, h), ground (arith, h))
with_program v skus (raised e) h = ground (arith, h)

listed : (skus : List ℕ) → not (is_empty skus) ≡ true → skus ≢ []
listed [] h = cc
listed (x ∷ xs) h = cc

applies :
    (b : ProgramBasket)
    → is_applicable b ≡ true
    → (b.is_same_partner ≡ true) × (b.skus ≢ []) × (b.total_incl_tax ≢ 0)
applies b h = (ground (arith, h), listed b.skus (ground (arith, h)), ground (arith, h))

-- If the condition is satisfied: the basket is the offer's partner's, has lines and is not free, the
-- program is found and active, and each of its courses is owned by the user (an enrollment or an
-- entitlement of an applicable mode) or has a SKU of the basket of its own that satisfies it.
pub is_satisfied-IsCovered :
    (v : Lookups) (b : ProgramBasket)
    → is_satisfied v b ≡ ok true
    → (b.is_same_partner ≡ true) × (b.skus ≢ []) × (b.total_incl_tax ≢ 0) × IsCovered v b.skus
unfolding is_satisfied
is_satisfied-IsCovered v b h = elim (Bool-cases (is_applicable b)) [
  | inl a ↦
      let q : check_program v b.skus (get_program v) ≡ ok true = ground (arith, h, a) in
      let (p, found, active, k) = with_program v b.skus (get_program v) (ap is_ok_true q) in
      let (owned, known, c) =
        with_data p b.skus (get_user_ownership_data v (has_entitlements p)) k in
      let (picks, cover, inside) =
        check_courses-IsCover p.applicable_seat_types owned p.courses b.skus c in
      let (partner, lines, paid) = applies b a in
      (partner, lines, paid, (p, owned, found, active, known, picks, cover))
  | inr a ↦ cc
]
