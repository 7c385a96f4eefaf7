-- ===== src/Program/Tests.antt =====
-- The program condition at concrete inputs, and the theorem about it applied there.
use edx_ecommerce.Base.{ℕ, ◌≡◌, ◌≢◌, refl, true, false, none, some, List, [], ◌∷◌}
use edx_ecommerce.Base.Action.{ok, raised, timeout}
use edx_ecommerce.Program.{Course, Program, Lookups}
use edx_ecommerce.Program.Condition.{course_skus, ProgramBasket, is_satisfied}
use edx_ecommerce.Program.Covered.{IsCovered, is_satisfied-IsCovered}

-- A course with one run, one seat of the type 1 and an entitlement of the mode 1.
abbrev course : (uuid key seat_sku entitlement_sku : ℕ) → Course
course uuid key seat_sku entitlement_sku = record {
  uuid = uuid;
  course_runs = record { key = key; seats = record { sku = seat_sku; seat_type = 1 } ∷ [] } ∷ [];
  entitlements = record { sku = entitlement_sku; mode = 1 } ∷ [];
}

abbrev program : Program
program = record {
  is_active = true;
  applicable_seat_types = 1 ∷ [];
  courses = course 11 21 31 41 ∷ course 12 22 32 42 ∷ course 13 23 33 43 ∷ [];
}

-- The user is enrolled in the first course and the LMS does not answer for the entitlements.
abbrev lookups : Lookups
lookups = record {
  client_program = ok (some program);
  has_owner = true;
  enable_partial_program = true;
  cached_enrollments = some (record { course_id = 21; mode = 1 } ∷ []);
  lms_enrollments = raised timeout;
  cached_entitlements = none;
  lms_entitlements = raised timeout;
}

abbrev basket : List ℕ → ProgramBasket
basket skus = record { is_same_partner = true; total_incl_tax = 100; skus = skus }

one_missing : is_satisfied lookups (basket (42 ∷ [])) ≡ ok false
unfolding is_satisfied course_skus
one_missing = refl

is_satisfied-IsCovered_example :
    ((basket (33 ∷ 42 ∷ [])).is_same_partner ≡ true)
    × (◌≢◌ {A = List ℕ} (33 ∷ 42 ∷ []) [])
    × ((basket (33 ∷ 42 ∷ [])).total_incl_tax ≢ 0)
    × IsCovered lookups (33 ∷ 42 ∷ [])
unfolding is_satisfied course_skus
is_satisfied-IsCovered_example = is_satisfied-IsCovered lookups (basket (33 ∷ 42 ∷ [])) refl
