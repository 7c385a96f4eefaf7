-- ===== src/Fulfillment/Order.antt =====
-- `fulfill_order` of ecommerce/extensions/fulfillment/api.py.
use edx_ecommerce.Base.{Bool, true, false, not, List, [], ◌∷◌, ◌++◌, ⊤, if◌then◌else◌, any, keep}
use edx_ecommerce.Base.Action.{Result, ok, raised, incorrect_order_status}
use edx_ecommerce.Fulfillment.Status.{OrderStatus, LineStatus, same_order_status}
use edx_ecommerce.Fulfillment.Rows.{Line, Services}
use edx_ecommerce.Fulfillment.Modules.{
  Module, fulfillment_modules, supports_line, set_status, for_each, Work, fulfill_product,
  all_complete,
}

-- The order's rows. While it is fulfilled, the lines are those handled so far and the `line_items`.
pub record Order : Type 0 where
  pub status : OrderStatus
  pub lines : List Line
  pub has_details : Bool

-- What follows one module that supports some of the lines.
abbrev pub then_modules :
    Result ⊤ × Work → (handled items : List Line) → (List Line → Bool → Work) → Work
then_modules (ok u, w) handled items rest = rest (handled ++ w.lines) w.has_details
then_modules (raised e, w) handled items rest = record w { lines = (handled ++ w.lines) ++ items }

abbrev pub is_empty : List Line → Bool
is_empty [] = true
is_empty (l ∷ ls) = false

-- The `try` statement: the loop over the modules, then the lines that none of them supports. What
-- raises ends it, and the lines stay as they were saved.
unfoldable pub run_modules :
    Services → List Module → (items handled : List Line) → (has_details : Bool) → Work
unfolding supports_line fulfill_product set_status for_each
run_modules v [] items handled d = record {
  lines = handled ++ (for_each (set_status v LineStatus.configuration_error) items).1;
  has_details = d;
}
run_modules v (m ∷ ms) items handled d =
    let supported = keep (λ l. supports_line m l.product) items in
    let rest = v.arrange (keep (λ l. not (supports_line m l.product)) items) in
    elim (is_empty supported) [
      | true ↦ run_modules v ms items handled d
      | false ↦
          then_modules (fulfill_product v m (record { lines = supported; has_details = d })) handled
            rest (run_modules v ms rest)
    ]

abbrev pub with_status : Order → Result OrderStatus → Result ⊤ × Order
with_status o (ok s) = (ok tt, record o { status = s })
with_status o (raised e) = (raised e, o)

-- The `finally` block.
unfoldable pub conclude : Services → Order → Result ⊤ × Order
conclude v o = with_status o (
    v.oscar.set_order_status o.status
      (if all_complete o.lines then OrderStatus.complete else OrderStatus.fulfillment_error))

abbrev pub worked : OrderStatus → Work → Order
worked s w = record { status = s; lines = w.lines; has_details = w.has_details }

unfoldable pub fulfill_order : Services → Order → Result ⊤ × Order
unfolding run_modules conclude
fulfill_order v o =
    if any (same_order_status OrderStatus.complete) (v.oscar.available_order_statuses o.status)
    then conclude v (worked o.status (run_modules v fulfillment_modules o.lines [] o.has_details))
    else (raised incorrect_order_status, o)
