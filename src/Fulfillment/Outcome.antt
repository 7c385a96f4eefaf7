-- ===== src/Fulfillment/Outcome.antt =====
-- How `fulfill_order` ends, whatever the modules do.
use edx_ecommerce.Base.{
  [], ◌≡◌, refl, ap, ◌∙◌, Bool, true, false, if◌then◌else◌, any, Bool-cases, inl, inr,
}
use edx_ecommerce.Base.Action.{ok, raised, incorrect_order_status}
use edx_ecommerce.Refund.{available_statuses}
use edx_ecommerce.Fulfillment.{
  OrderStatus, Oscar, OscarLaws, same_order_status, order_pipeline, Services, all_complete,
  fulfillment_modules,
}
use edx_ecommerce.Fulfillment.Order.{
  Order, fulfill_order, conclude, run_modules, worked, with_status,
}

-- `Order.is_fulfillable` of ecommerce/extensions/order/models.py.
unfoldable pub is_fulfillable : OrderStatus → Bool
is_fulfillable OrderStatus.opened = true
is_fulfillable OrderStatus.fulfillment_error = true
is_fulfillable _ = false

abbrev pub outcome : Order → OrderStatus
outcome o = if all_complete o.lines then OrderStatus.complete else OrderStatus.fulfillment_error

abbrev pub is_open_to_fulfillment : OrderStatus → Bool
is_open_to_fulfillment s =
    any (same_order_status OrderStatus.complete)
      (available_statuses same_order_status order_pipeline s)

guard-is_fulfillable : (s : OrderStatus) → is_open_to_fulfillment s ≡ is_fulfillable s
unfolding is_fulfillable available_statuses
guard-is_fulfillable OrderStatus.complete = refl
guard-is_fulfillable OrderStatus.fulfillment_error = refl
guard-is_fulfillable OrderStatus.payment_error = refl
guard-is_fulfillable OrderStatus.opened = refl
guard-is_fulfillable OrderStatus.pending = refl

module _ {o : Oscar} (laws : OscarLaws o) where
  open laws use {order_same, order_allowed}

  accepted :
      (s : OrderStatus) (done : Bool)
      → is_fulfillable s ≡ true
      → let t = if done then OrderStatus.complete else OrderStatus.fulfillment_error in
        o.set_order_status s t ≡ ok t
  unfolding is_fulfillable available_statuses
  accepted OrderStatus.opened true h = order_allowed _ _ refl
  accepted OrderStatus.opened false h = order_allowed _ _ refl
  accepted OrderStatus.fulfillment_error true h = order_allowed _ _ refl
  accepted OrderStatus.fulfillment_error false h = order_same _
  accepted _ done h = cc

conclude-outcome :
    (v : Services) (o : Order)
    → OscarLaws v.oscar
    → is_fulfillable o.status ≡ true
    → conclude v o ≡ (ok tt, record o { status = outcome o })
unfolding conclude
conclude-outcome v o laws h = ap (with_status o) (accepted laws o.status (all_complete o.lines) h)

-- The order once its modules have run, with the status that its lines give it.
abbrev pub settled : Order → Order
settled o = record o { status = outcome o }

-- If Oscar's statuses obey their laws: for an order that is open or in error, whatever the modules
-- do, an exception included, the call returns, and the order is complete exactly when all its lines
-- are, and in error otherwise. An order in any other status raises `IncorrectOrderStatusError` and
-- is left alone.
pub fulfill_order-outcome :
    (v : Services) (o : Order)
    → OscarLaws v.oscar
    → fulfill_order v o ≡ (
        if is_fulfillable o.status
        then (
          ok tt,
          settled (worked o.status (run_modules v fulfillment_modules o.lines [] o.has_details)),
        )
        else (raised incorrect_order_status, o))
unfolding fulfill_order
fulfill_order-outcome v o laws =
    let w = worked o.status (run_modules v fulfillment_modules o.lines [] o.has_details) in
    let guard =
      ap (any (same_order_status OrderStatus.complete)) (laws.available o.status)
      ∙ guard-is_fulfillable o.status in
    elim (Bool-cases (is_fulfillable o.status)) [
      | inl open_order ↦ rw (guard ∙ open_order, open_order) (conclude-outcome v w laws open_order)
      | inr closed_order ↦ rw (guard ∙ closed_order, closed_order) refl
    ]
