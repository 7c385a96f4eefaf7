-- ===== src/Fulfillment/Success.antt =====
-- When every service answers, every line is fulfilled.
use edx_ecommerce.Base.{
  ◌≡◌, refl, ap, ◌∙◌, Bool, true, false, not, ◌&&◌, List, [], ◌∷◌, ◌++◌, if◌then◌else◌, all, keep,
  map, Bool-cases, inl, inr, arith,
}
use mathlib.Core.Bool.{and-eq-true_iff}
use edx_ecommerce.Base.Action.{ok, raised, incorrect_order_status}
use edx_ecommerce.Fulfillment.{
  OrderStatus, Services, Line, Module, fulfillment_modules, supports_line, is_complete,
  all_complete,
}
use edx_ecommerce.Fulfillment.Modules.{
  enrollment, coupon, enrollment_code, course_entitlement, donations, executive_education,
}
use edx_ecommerce.Fulfillment.Order.{
  Order, fulfill_order, run_modules, then_modules, worked, is_empty,
}
use edx_ecommerce.Fulfillment.Outcome.{is_fulfillable, fulfill_order-outcome, settled}
use edx_ecommerce.Fulfillment.Serviced.{
  Succeeds, done, has_attributes, has_what_it_needs, details_after, lasts, fits,
  all_complete-map-done, fulfill_product-done, FulfilledBy,
}

module _ (v : Services) (yes_all : Succeeds v) where
  and_true : (a b : Bool) → a && b ≡ true → (a ≡ true) × (b ≡ true)
  and_true a b h = (and-eq-true_iff a b).0 h

  -- Lines that are all complete, one list after the other.
  all_complete-append :
      (xs ys : List Line)
      → all_complete xs ≡ true
      → all_complete ys ≡ true
      → all_complete (xs ++ ys) ≡ true
  all_complete-append [] ys h k = k
  all_complete-append (x ∷ xs) ys h k =
      let (h0, h1) = and_true (is_complete x.status) (all_complete xs) h in
      (and-eq-true_iff (is_complete x.status) (all_complete (xs ++ ys))).1
        (h0, all_complete-append xs ys h1 k)

  kept_attributes :
      (m : Module) (ms : List Module) (items : List Line)
      → all (fits (m ∷ ms)) items ≡ true
      → all (λ l. has_attributes m l.product) (keep (λ l. supports_line m l.product) items) ≡ true
  kept_attributes m ms [] h = refl
  kept_attributes m ms (l ∷ ls) h =
      let (h0, h1) = and_true (fits (m ∷ ms) l) (all (fits (m ∷ ms)) ls) h in
      ground (arith, kept_attributes m ms ls h1, h0)

  left_fit :
      (m : Module) (ms : List Module) (items : List Line)
      → all (fits (m ∷ ms)) items ≡ true
      → all (fits ms) (keep (λ l. not (supports_line m l.product)) items) ≡ true
  left_fit m ms [] h = refl
  left_fit m ms (l ∷ ls) h =
      let (h0, h1) = and_true (fits (m ∷ ms) l) (all (fits (m ∷ ms)) ls) h in
      ground (arith, left_fit m ms ls h1, h0)

  none_kept :
      (m : Module) (ms : List Module) (items : List Line)
      → is_empty (keep (λ l. supports_line m l.product) items) ≡ true
      → all (fits (m ∷ ms)) items ≡ true
      → all (fits ms) items ≡ true
  none_kept m ms [] e h = refl
  none_kept m ms (l ∷ ls) e h =
      let (h0, h1) = and_true (fits (m ∷ ms) l) (all (fits (m ∷ ms)) ls) h in
      ground (arith, none_kept m ms ls, h1, h0)

  lasts_more : (ms : List Module) (d : Bool) → lasts ms false ≡ true → lasts ms d ≡ true
  lasts_more [] d h = refl
  lasts_more (m ∷ ms) false h = h
  lasts_more (enrollment ∷ ms) true h = lasts_more ms true h
  lasts_more (coupon ∷ ms) true h = lasts_more ms true h
  lasts_more (enrollment_code ∷ ms) true h = lasts_more ms true h
  lasts_more (course_entitlement ∷ ms) true h = lasts_more ms true h
  lasts_more (donations ∷ ms) true h = lasts_more ms true h
  lasts_more (executive_education ∷ ms) true h = cc

  lasts_skip :
      (m : Module) (ms : List Module) (d : Bool)
      → lasts ms (details_after m d) ≡ true
      → lasts ms d ≡ true
  lasts_skip executive_education ms d h = lasts_more ms d h
  lasts_skip enrollment ms d h = h
  lasts_skip coupon ms d h = h
  lasts_skip enrollment_code ms d h = h
  lasts_skip course_entitlement ms d h = h
  lasts_skip donations ms d h = h

  run_modules_complete :
      (ms : List Module) (items handled : List Line) (d : Bool)
      → all (fits ms) items ≡ true
      → lasts ms d ≡ true
      → all_complete handled ≡ true
      → all_complete (run_modules v ms items handled d).lines ≡ true
  unfolding run_modules FulfilledBy
  run_modules_complete [] [] handled d f n c = all_complete-append handled [] c refl
  run_modules_complete [] (l ∷ ls) handled d f n c = cc
  run_modules_complete (m ∷ ms) items handled d f n c =
      let supported = keep (λ l. supports_line m l.product) items in
      let left = keep (λ l. not (supports_line m l.product)) items in
      let (n0, n1) = and_true (has_what_it_needs m d) (lasts ms (details_after m d)) n in
      elim (Bool-cases (is_empty supported)) [
        | inl e ↦
            rw (run_modules, e)
              (run_modules_complete ms items handled d (none_kept m ms items e f)
                (lasts_skip m ms d n1) c)
        | inr e ↦
            rw (run_modules, e)
              (ap
                  (λ q.
                    all_complete
                      (then_modules q handled (v.arrange left)
                        (run_modules v ms (v.arrange left))).lines)
                  (fulfill_product-done v yes_all m supported d (kept_attributes m ms items f) n0)
                ∙ run_modules_complete ms (v.arrange left) (handled ++ map done supported)
                    (details_after m d)
                    (yes_all.same_members (fits ms) left ∙ left_fit m ms items f) n1
                    (all_complete-append handled (map done supported) c
                      (all_complete-map-done supported)))
      ]

  -- If every service answers with success, Oscar's statuses obey their laws, the order is open or
  -- in error and has its `Fulfillment Details`, and each of its lines is supported by some
  -- module and has what every module that supports it reads, then `fulfill_order` returns without
  -- an exception, and the order and all its lines are complete.
  pub fulfill_order-complete :
      (o : Order)
      → is_fulfillable o.status ≡ true
      → o.has_details ≡ true
      → all (fits fulfillment_modules) o.lines ≡ true
      → (after : Order) × (fulfill_order v o ≡ (ok tt, after))
        × (after.status ≡ OrderStatus.complete)
        × (all_complete after.lines ≡ true)
  fulfill_order-complete o open_order details f =
      let w = run_modules v fulfillment_modules o.lines [] o.has_details in
      let c =
        run_modules_complete fulfillment_modules o.lines [] o.has_details f
          (ap (lasts fulfillment_modules) details) refl in
      (
        settled (worked o.status w),
        fulfill_order-outcome v o yes_all.laws
            ∙ ap
                (λ b.
                  if b
                  then (ok tt, settled (worked o.status w))
                  else (raised incorrect_order_status, o))
                open_order,
        ap (λ b. if b then OrderStatus.complete else OrderStatus.fulfillment_error) c,
        c,
      )
