-- ===== src/Checkout/Complete.antt =====
-- What `place_free_order` of ecommerce/extensions/checkout/mixins.py comes to.
use edx_ecommerce.Base.{
  ℕ, ◌≡◌, refl, ap, ◌∙◌, Bool, true, false, not, ◌||◌, Option, none, some, any, all, map, is_some,
  ◌==◌, if◌then◌else◌, Bool-cases, inl, inr, arith, length, keep,
}
use edx_ecommerce.Base.Action.{ok, raised, not_free, type_error, raise, call, modify, ◌>>◌}
use edx_ecommerce.Base.Bind.{>>-returns, >>-raises}
use edx_ecommerce.Fulfillment.{OrderStatus, all_complete, fulfillment_modules}
use edx_ecommerce.Fulfillment.Order.{Order}
use edx_ecommerce.Fulfillment.Outcome.{is_fulfillable}
use edx_ecommerce.Fulfillment.Serviced.{Succeeds, fits}
use edx_ecommerce.Order.Shipping.{is_line_complete, post_checkout_callback-unshipped}
use edx_ecommerce.Voucher.{Voucher, VoucherOffer, enterprise_offer}
use edx_ecommerce.Checkout.Codes.{
  Tables, Assignment, fresh, is_for, fill_up, is_multi_use_per_customer, create_for, redeem_for,
  when_offer, create_assignments_for_multi_use_per_customer,
  update_assigned_voucher_offer_assignment,
}
use edx_ecommerce.Checkout.Counter.{fill_up-some}
use edx_ecommerce.Checkout.Placement.{
  frozen, submitted, Store, Checkout, on_tables, with_tables, with_order, with_placed,
  with_submitted, with_frozen, freeze_basket, send_post_checkout, place_and_submit,
  handle_successful_order, handle_order_placement, place_free_order, add_task,
}

-- The offer of a code that one customer may use many times has a limit.
abbrev pub has_limit_with : Voucher → Option VoucherOffer → Bool
has_limit_with u none = true
has_limit_with u (some o) =
    not (is_multi_use_per_customer u.usage) || is_some o.offer.max_global_applications

abbrev pub has_limit : Option Voucher → Bool
has_limit none = true
has_limit (some u) = has_limit_with u (enterprise_offer u.offers)

fill_up-returns :
    (max : Option ℕ) (n : ℕ) (a : Assignment) (t : Tables)
    → is_some max ≡ true
    → (t' : Tables) × (fill_up max n a t ≡ (ok tt, t'))
fill_up-returns none n a t h = cc
fill_up-returns (some max) n a t h = (_, fill_up-some max n a t)

create_with :
    (u : Voucher) (email : ℕ) (x : Option VoucherOffer) (t : Tables)
    → has_limit_with u x ≡ true
    → (t' : Tables) × (when_offer x (create_for u email) t ≡ (ok tt, t'))
unfolding create_for
create_with u email none t h = (t, refl)
create_with u email (some o) t h = elim (Bool-cases (is_multi_use_per_customer u.usage)) [
  | inl e ↦
      let (t', k) =
        fill_up-returns o.offer.max_global_applications
          (length (keep (is_for u.code email) t.assignments)) (fresh o.offer.id u.code email) t
          (ground (arith, h, e)) in
      (t', rw (create_for, e) k)
  | inr e ↦ (t, rw (create_for, e) refl)
]

create-returns :
    (u : Option Voucher) (email : ℕ) (t : Tables)
    → has_limit u ≡ true
    → (t' : Tables) × (create_assignments_for_multi_use_per_customer u email t ≡ (ok tt, t'))
unfolding create_assignments_for_multi_use_per_customer
create-returns none email t h = (t, refl)
create-returns (some u) email t h = create_with u email (enterprise_offer u.offers) t h

update_with :
    (u : Voucher) (email : ℕ) (a : Option ℕ) (x : Option VoucherOffer) (t : Tables)
    → (t' : Tables) × (when_offer x (redeem_for u email a) t ≡ (ok tt, t'))
update_with u email a none t = (t, refl)
update_with u email a (some o) t = (_, refl)

update-returns :
    (u : Option Voucher) (email : ℕ) (a : Option ℕ) (t : Tables)
    → (t' : Tables) × (update_assigned_voucher_offer_assignment u email a t ≡ (ok tt, t'))
unfolding update_assigned_voucher_offer_assignment
update-returns none email a t = (t, refl)
update-returns (some u) email a t = update_with u email a (enterprise_offer u.offers) t

module _ (v : Checkout) (s : Store) (o : Order) (free : v.total_incl_tax ≡ 0)
    (frozen_by : v.freeze s.basket_status ≡ ok frozen)
    (submitted_by : v.submit frozen ≡ ok submitted) (placed : v.place_order ≡ ok o)
    (opt_in : v.email_opt_in ≡ ok tt) where
  abbrev started : Store
  started = record s { basket_status = submitted; order = some o }

  abbrev coded : Tables → Store
  coded t = record s { basket_status = submitted; order = some o; tables = t }

  place_and_submit_lem : place_and_submit v (record s { basket_status = frozen }) ≡ (ok tt, started)
  unfolding place_and_submit
  place_and_submit_lem =
      ap (with_placed v (record s { basket_status = frozen })) placed
      ∙ ap (with_submitted (record s { basket_status = frozen }) o) submitted_by

  place_free_order_lem : place_free_order v s ≡ handle_successful_order v started
  unfolding place_free_order handle_order_placement
  place_free_order_lem =
      ap
        (λ n.
          (if not (n == 0) then raise not_free else freeze_basket v >> handle_order_placement v) s)
        free
      ∙ >>-returns (freeze_basket v) (handle_order_placement v) (ap (with_frozen s) frozen_by)
      ∙ >>-returns (place_and_submit v) (handle_successful_order v) place_and_submit_lem

  opted : call v.email_opt_in started ≡ (ok tt, started)
  opted = ap (λ r. (r, started)) opt_in

  -- If the basket is free, Oscar freezes it, places its order and submits it, the lookup of its
  -- e-mail opt-in raises nothing, the code of the basket has a limit or is not for many uses by one
  -- customer, fulfillment runs at once, every service answers as `Succeeds` asks, the order may be
  -- fulfilled and has its details, a module fits each of its lines, none of them is complete yet
  -- and Oscar accepts their shipping event, then `place_free_order` returns, the basket is
  -- submitted, and the order and all its lines are complete.
  pub place_free_order-complete :
      has_limit v.voucher ≡ true
      → v.is_async ≡ false
      → (serves : Succeeds v.services) → is_fulfillable o.status ≡ true
      → o.has_details ≡ true
      → all (fits fulfillment_modules) o.lines ≡ true
      → any is_line_complete o.lines ≡ false
      → v.shipping.validate_shipping_event o.lines (map v.shipping.quantity o.lines) ≡ ok tt
      → (after : Store) × (fulfilled : Order) × (place_free_order v s ≡ (ok tt, after))
        × (after.basket_status ≡ submitted)
        × (after.order ≡ some fulfilled)
        × (fulfilled.status ≡ OrderStatus.complete)
        × (all_complete fulfilled.lines ≡ true)
  unfolding handle_successful_order send_post_checkout
  place_free_order-complete limited sync serves fulfillable details fitting none_complete valid =
      let (t, created) = create-returns v.voucher v.owner_email s.tables limited in
      let (t', updated) = update-returns v.voucher v.owner_email v.application t in
      let (fulfilled, sent, c, d) =
        post_checkout_callback-unshipped v.services serves v.shipping o s.events fulfillable details
          fitting none_complete valid in
      let creates =
        on_tables (create_assignments_for_multi_use_per_customer v.voucher v.owner_email) in
      let updates =
        on_tables
          (update_assigned_voucher_offer_assignment v.voucher v.owner_email v.application) in
      let send = if v.is_async then modify add_task else send_post_checkout v in
      let first : (call v.email_opt_in >> creates) started ≡ (ok tt, coded t) =
        >>-returns (call v.email_opt_in) creates opted ∙ ap (with_tables started) created in
      let second : (call v.email_opt_in >> creates >> updates) started ≡ (ok tt, coded t') =
        >>-returns (call v.email_opt_in >> creates) updates first
        ∙ ap (with_tables (coded t)) updated in
      (
        record (coded t') { order = some fulfilled },
        fulfilled,
        place_free_order_lem
            ∙ >>-returns (call v.email_opt_in >> creates >> updates) send second
            ∙ ap (λ b. (if b then modify add_task else send_post_checkout v) (coded t')) sync
            ∙ ap (with_order (coded t')) sent,
        refl,
        refl,
        c,
        d,
      )

  -- If the basket is free, Oscar freezes it, places its order and submits it, the lookup of its
  -- e-mail opt-in raises nothing, and the voucher of the basket is for many uses by one customer
  -- with an enterprise offer that has no limit, then `place_free_order` raises a `TypeError` that
  -- leaves the basket submitted and the order placed, as Oscar created it: it is neither fulfilled
  -- nor sent to the worker.
  pub place_free_order-unlimited :
      (u : Voucher) (e : VoucherOffer)
      → v.voucher ≡ some u
      → enterprise_offer u.offers ≡ some e
      → is_multi_use_per_customer u.usage ≡ true
      → e.offer.max_global_applications ≡ none
      → place_free_order v s
        ≡ (raised type_error, record s { basket_status = submitted; order = some o })
  unfolding handle_successful_order create_assignments_for_multi_use_per_customer create_for fill_up
  place_free_order-unlimited u e has_voucher offered usage unlimited =
      let creates =
        on_tables (create_assignments_for_multi_use_per_customer v.voucher v.owner_email) in
      let updates =
        on_tables
          (update_assigned_voucher_offer_assignment v.voucher v.owner_email v.application) in
      let send = if v.is_async then modify add_task else send_post_checkout v in
      let fails : create_assignments_for_multi_use_per_customer v.voucher v.owner_email s.tables
          ≡ (raised type_error, s.tables) =
        ap (λ w. create_assignments_for_multi_use_per_customer w v.owner_email s.tables) has_voucher
        ∙ ap (λ x. when_offer x (create_for u v.owner_email) s.tables) offered
        ∙ rw (create_for, usage, unlimited) refl in
      let first : (call v.email_opt_in >> creates) started ≡ (raised type_error, started) =
        >>-returns (call v.email_opt_in) creates opted ∙ ap (with_tables started) fails in
      place_free_order_lem
      ∙ >>-raises (call v.email_opt_in >> creates >> updates) send
          (>>-raises (call v.email_opt_in >> creates) updates first)
