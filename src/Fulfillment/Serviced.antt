-- ===== src/Fulfillment/Serviced.antt =====
-- What one fulfillment module does to its lines when every service answers.
use edx_ecommerce.Base.{
  ℕ, ◌≡◌, refl, ap, ◌∙◌, Bool, true, false, not, ◌&&◌, ◌||◌, List, [], ◌∷◌, ⊤, is_some, any, all,
  map, arith,
}
use mathlib.Core.Bool.{and-eq-true_iff}
use edx_ecommerce.Base.Action.{Result, ok, raised, Action}
use edx_ecommerce.Refund.{available_statuses}
use edx_ecommerce.Fulfillment.{
  LineStatus, Oscar, OscarLaws, Services, Product, Line, Module, supports_line, set_status,
  then_rest, for_each, enroll, entitle, make_codes, allocate, Work, drop_details, fulfill_product,
  all_complete, saved,
}
use edx_ecommerce.Fulfillment.Modules.{
  enrollment, coupon, enrollment_code, course_entitlement, donations, executive_education,
}

-- Every call out succeeds, and an arranged list has the members that it had.
pub record Succeeds (v : Services) : Type 0 where
  pub laws : OscarLaws v.oscar
  pub api_key : v.has_api_key ≡ true
  pub enrolls : (l : Line) → v.post_enrollment l ≡ ok 200
  pub entitles : (l : Line) → (uuid : ℕ) × (v.post_entitlement l ≡ ok uuid)
  pub vouchers : (l : Line) → v.create_vouchers l ≡ ok tt
  pub notifies : v.notify_enrollment_codes ≡ ok tt
  pub payload : (l : Line) → v.allocation_payload l ≡ ok tt
  pub allocates : (l : Line) → v.create_allocation l ≡ ok tt
  pub same_members : (p : Line → Bool) (ls : List Line) → all p (v.arrange ls) ≡ all p ls

abbrev pub done : Line → Line
done l = record l { status = LineStatus.complete }

-- The line has the attributes that its module reads.
abbrev pub has_attributes : Module → Product → Bool
has_attributes enrollment p = is_some p.course_key
has_attributes course_entitlement p = is_some p.uuid
has_attributes _ p = true

-- The executive education module needs the order's details, and drops them when it is done.
abbrev pub has_what_it_needs : Module → Bool → Bool
has_what_it_needs executive_education d = d
has_what_it_needs _ d = true

abbrev pub details_after : Module → Bool → Bool
details_after executive_education d = false
details_after _ d = d

-- Each module of the list that needs the details still finds them.
abbrev pub lasts : List Module → Bool → Bool
lasts [] d = true
lasts (m ∷ ms) d = has_what_it_needs m d && lasts ms (details_after m d)

-- Some module of the list supports the line, and each one that does finds its attributes.
abbrev pub fits_one : Line → Module → Bool
fits_one l m = not (supports_line m l.product) || has_attributes m l.product

abbrev pub fits : List Module → Line → Bool
fits ms l = any (λ m. supports_line m l.product) ms && all (fits_one l) ms

pub all_complete-map-done : (ls : List Line) → all_complete (map done ls) ≡ true
all_complete-map-done [] = refl
all_complete-map-done (l ∷ ls) = all_complete-map-done ls

completable :
    {o : Oscar} (laws : OscarLaws o) (s : LineStatus)
    → o.set_line_status s LineStatus.complete ≡ ok LineStatus.complete
unfolding available_statuses
completable laws LineStatus.complete = laws.line_same _
completable laws LineStatus.configuration_error = laws.line_allowed _ _ refl
completable laws LineStatus.network_error = laws.line_allowed _ _ refl
completable laws LineStatus.timeout_error = laws.line_allowed _ _ refl
completable laws LineStatus.server_error = laws.line_allowed _ _ refl
completable laws LineStatus.opened = laws.line_allowed _ _ refl

module _ (v : Services) (yes_all : Succeeds v) where
  set_complete : (l : Line) → set_status v LineStatus.complete l ≡ (ok tt, done l)
  unfolding set_status
  set_complete l = ap (saved l) (completable yes_all.laws l.status)

  enroll_lem : (l : Line) → is_some l.product.course_key ≡ true → enroll v l ≡ (ok tt, done l)
  unfolding enroll
  enroll_lem l h = ground (arith, yes_all.enrolls l, set_complete l)

  for_each-done :
      (body : Action Line ⊤) (p : Line → Bool)
      → ((l : Line) → p l ≡ true → body l ≡ (ok tt, done l))
      → (ls : List Line) → all p ls ≡ true
      → for_each body ls ≡ (ok tt, map done ls)
  unfolding for_each
  for_each-done body p h [] a = refl
  for_each-done body p h (l ∷ ls) a =
      let (a0, a1) = (and-eq-true_iff _ _).0 a in
      ap (λ q. then_rest q ls (for_each body ls)) (h l a0)
      ∙ ap (λ q. then_rest (ok tt, done l) ls q) (for_each-done body p h ls a1)

  entitle_lem : (l : Line) → is_some l.product.uuid ≡ true → entitle v l ≡ (ok tt, done l)
  unfolding entitle
  entitle_lem l h = ground (arith, (yes_all.entitles l).1, set_complete l)

  make_codes_lem : (l : Line) → make_codes v l ≡ (ok tt, done l)
  unfolding make_codes
  make_codes_lem l = ground (arith, yes_all.vouchers l, set_complete l)

  allocate_lem : (l : Line) → allocate v l ≡ (ok tt, done l)
  unfolding allocate
  allocate_lem l = ground (arith, yes_all.payload l, yes_all.allocates l, set_complete l)

  -- What a module does to lines whose attributes it finds.
  unfoldable pub FulfilledBy : Module → List Line → Bool → Type 0
  FulfilledBy m ls d =
      fulfill_product v m (record { lines = ls; has_details = d })
      ≡ (ok tt, record { lines = map done ls; has_details = details_after m d })

  any_line : (ls : List Line) → all (λ (l : Line). true) ls ≡ true
  any_line [] = refl
  any_line (l ∷ ls) = any_line ls

  for_all_done :
      (body : Action Line ⊤)
      → ((l : Line) → body l ≡ (ok tt, done l))
      → (ls : List Line) → for_each body ls ≡ (ok tt, map done ls)
  for_all_done body h ls = for_each-done body (λ _. true) (λ l _. h l) ls (any_line ls)

  pub fulfill_product-done :
      (m : Module) (ls : List Line) (d : Bool)
      → all (λ l. has_attributes m l.product) ls ≡ true
      → has_what_it_needs m d ≡ true
      → FulfilledBy m ls d
  unfolding FulfilledBy fulfill_product
  fulfill_product-done enrollment ls d a n =
      ap (λ (q : Result ⊤ × List Line). (q.0, record { lines = q.1; has_details = d }))
        (for_each-done _ (λ l. is_some l.product.course_key)
          (λ l h. rw (yes_all.api_key) (enroll_lem l h)) ls a)
  fulfill_product-done coupon ls d a n =
      ap (λ (q : Result ⊤ × List Line). (q.0, record { lines = q.1; has_details = d }))
        (for_all_done (set_status v LineStatus.complete) set_complete ls)
  fulfill_product-done enrollment_code ls d a n =
      let work : List Line → Work = λ xs. record { lines = xs; has_details = d } in
      ap
        (λ (q : Result ⊤ × List Line). elim q.0 as (λ r. Result ⊤ × Work) [
          | ok u ↦ (v.notify_enrollment_codes, work q.1)
          | raised e ↦ (raised e, work q.1)
        ])
        (for_all_done (make_codes v) make_codes_lem ls)
      ∙ ap (λ r. (r, work (map done ls))) yes_all.notifies
  fulfill_product-done course_entitlement ls d a n =
      ap (λ (q : Result ⊤ × List Line). (q.0, record { lines = q.1; has_details = d }))
        (for_each-done (entitle v) (λ l. is_some l.product.uuid) entitle_lem ls a)
  fulfill_product-done donations ls d a n =
      ap (λ (q : Result ⊤ × List Line). (q.0, record { lines = q.1; has_details = d }))
        (for_all_done (set_status v LineStatus.complete) set_complete ls)
  fulfill_product-done executive_education ls true a n =
      let work : List Line → Work = λ xs. record { lines = xs; has_details = true } in
      ap
        (λ (q : Result ⊤ × List Line). elim q.0 as (λ r. Result ⊤ × Work) [
          | ok u ↦ drop_details (work q.1)
          | raised e ↦ (raised e, work q.1)
        ])
        (for_all_done (allocate v) allocate_lem ls)
      ∙ ap (λ b. (ok tt, record { lines = map done ls; has_details = not b }))
          (all_complete-map-done ls)
  fulfill_product-done executive_education ls false a n = cc
