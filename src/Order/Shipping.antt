-- ===== src/Order/Shipping.antt =====
-- `EventHandler` of ecommerce/extensions/order/processing.py, and `post_checkout_callback` of
-- ecommerce/extensions/fulfillment/signals.py, which calls it.
use edx_ecommerce.Base.{
  ℕ, ◌≡◌, refl, ap, ◌∙◌, Bool, true, false, not, ◌&&◌, Option, none, some, List, [], ◌∷◌, ◌++◌, ⊤,
  if◌then◌else◌, any, all, map, arith,
}
use edx_ecommerce.Base.Action.{Result, ok, raised, Exc, invalid_shipping_event}
use edx_ecommerce.Fulfillment.{
  Line, OrderStatus, Services, is_complete, all_complete, fulfillment_modules,
}
use edx_ecommerce.Fulfillment.Order.{Order, fulfill_order}
use edx_ecommerce.Fulfillment.Outcome.{is_fulfillable}
use edx_ecommerce.Fulfillment.Serviced.{Succeeds, fits}
use edx_ecommerce.Fulfillment.Success.{fulfill_order-complete}

-- A shipping event: its lines with their quantities.
abbrev pub Event : Type 0
Event = List (Line × ℕ)

-- What Oscar does for the handler: its own validation, whether a line was shipped before, the
-- row it writes for a line, and the quantity of a line.
pub record Shipping : Type 0 where
  pub validate_shipping_event : List Line → List ℕ → Result ⊤
  pub has_shipping_event_occurred : Line → Bool
  pub create_quantity : Line → ℕ → Result ⊤
  pub quantity : Line → ℕ

abbrev pub is_line_complete : Line → Bool
is_line_complete l = is_complete l.status

abbrev pub is_shippable : Shipping → Line → Bool
is_shippable v l = is_line_complete l && not (v.has_shipping_event_occurred l)

-- One row is written: the loop goes on, or ends with what was raised.
abbrev pub with_row : Result ⊤ → Line × ℕ → Result ⊤ × Event → Result ⊤ × Event
with_row (ok u) row (r, event) = (r, row ∷ event)
with_row (raised e) row rest = (raised e, [])

-- The loop over `zip(lines, line_quantities)`.
unfoldable pub add_lines : Shipping → List Line → List ℕ → Result ⊤ × Event
add_lines v [] qs = (ok tt, [])
add_lines v (l ∷ ls) [] = (ok tt, [])
add_lines v (l ∷ ls) (q ∷ qs) =
    let rest = add_lines v ls qs in
    if is_shippable v l then with_row (v.create_quantity l q) (l, q) rest else rest

abbrev pub is_invalid : Exc → Bool
is_invalid invalid_shipping_event = true
is_invalid _ = false

-- The event is deleted when it has no lines and when a line of it is invalid.
abbrev pub kept : List Event → Result ⊤ × Event → Result (Option Event) × List Event
kept events (ok u, []) = (ok none, events)
kept events (ok u, row ∷ rows) = (ok (some (row ∷ rows)), events ++ (row ∷ rows) ∷ [])
kept events (raised e, event) = (raised e, if is_invalid e then events else events ++ event ∷ [])

unfoldable pub create_shipping_event :
    Shipping → List Line → List ℕ → List Event → Result (Option Event) × List Event
unfolding add_lines
create_shipping_event v lines quantities events = kept events (add_lines v lines quantities)

abbrev pub on_order : Result (Option Event) × List Event → Order → Result ⊤ × (Order × List Event)
on_order (ok event, events) o = (ok tt, (o, events))
on_order (raised e, events) o = (raised e, (o, events))

abbrev pub when_fulfilled :
    Shipping → List Line → List ℕ → List Event → Result ⊤ × Order → Result ⊤ × (Order × List Event)
when_fulfilled v lines quantities events (ok u, o) =
    on_order (create_shipping_event v lines quantities events) o
when_fulfilled v lines quantities events (raised e, o) = (raised e, (o, events))

abbrev pub when_valid :
    Result ⊤
    → Result ⊤ × (Order × List Event)
    → Order × List Event
    → Result ⊤ × (Order × List Event)
when_valid (ok u) rest s = rest
when_valid (raised e) rest s = (raised e, s)

-- `lines` are the rows as they were read before the call: `fulfill_order` reads the rows of the
-- order again by `lines.all()`, and saves those.
unfoldable pub handle_shipping_event :
    Services
    → Shipping
    → (lines : List Line) → (quantities : List ℕ) → Order × List Event
    → Result ⊤ × (Order × List Event)
unfolding fulfill_order create_shipping_event
handle_shipping_event s v lines quantities (o, events) =
    when_valid (v.validate_shipping_event lines quantities)
      (when_fulfilled v lines quantities events (fulfill_order s o)) (o, events)

unfoldable pub post_checkout_callback :
    Services → Shipping → Order × List Event → Result ⊤ × (Order × List Event)
unfolding handle_shipping_event
post_checkout_callback s v (o, events) =
    handle_shipping_event s v o.lines (map v.quantity o.lines) (o, events)

add_lines-open :
    (v : Shipping) (ls : List Line) (qs : List ℕ)
    → any is_line_complete ls ≡ false
    → add_lines v ls qs ≡ (ok tt, [])
unfolding add_lines
add_lines-open v [] qs h = refl
add_lines-open v (l ∷ ls) [] h = refl
add_lines-open v (l ∷ ls) (q ∷ qs) h = ground (arith, add_lines-open v ls qs)

-- If no line of the order is complete yet, Oscar finds the event valid, and `fulfill_order`
-- succeeds as `fulfill_order-complete` says, the callback completes the order and all its lines,
-- and still the order gets no shipping event.
pub post_checkout_callback-unshipped :
    (s : Services) (serves : Succeeds s) (v : Shipping) (o : Order) (events : List Event)
    → is_fulfillable o.status ≡ true
    → o.has_details ≡ true
    → all (fits fulfillment_modules) o.lines ≡ true
    → any is_line_complete o.lines ≡ false
    → v.validate_shipping_event o.lines (map v.quantity o.lines) ≡ ok tt
    → (after : Order) × (post_checkout_callback s v (o, events) ≡ (ok tt, (after, events)))
      × (after.status ≡ OrderStatus.complete)
      × (all_complete after.lines ≡ true)
unfolding post_checkout_callback handle_shipping_event create_shipping_event
post_checkout_callback-unshipped s serves v o events fulfillable details f none_complete valid =
    let qs = map v.quantity o.lines in
    let (after, done, c, d) = fulfill_order-complete s serves o fulfillable details f in
    (
      after,
      ap (λ r. when_valid r (when_fulfilled v o.lines qs events (fulfill_order s o)) (o, events))
            valid
          ∙ ap (when_fulfilled v o.lines qs events) done
          ∙ ap (λ r. on_order (kept events r) after) (add_lines-open v o.lines qs none_complete),
      c,
      d,
    )
