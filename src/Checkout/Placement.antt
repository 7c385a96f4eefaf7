-- ===== src/Checkout/Placement.antt =====
-- `place_free_order`, `handle_order_placement` and `handle_successful_order` of
-- ecommerce/extensions/checkout/mixins.py. Tracking and the audit log are left out.
use edx_ecommerce.Base.{ℕ, suc, Bool, not, Option, none, some, List, ◌==◌, if◌then◌else◌, ⊤}
use edx_ecommerce.Base.Action.{Action, Result, ok, raised, raise, call, modify, not_free, ◌>>◌}
use edx_ecommerce.Fulfillment.{Services}
use edx_ecommerce.Fulfillment.Order.{Order}
use edx_ecommerce.Order.Shipping.{Event, Shipping, post_checkout_callback}
use edx_ecommerce.Voucher.{Voucher}
use edx_ecommerce.Checkout.Codes.{
  Tables, create_assignments_for_multi_use_per_customer, update_assigned_voucher_offer_assignment,
}

-- Oscar's statuses of a basket.
pub data BasketStatus : Type 0 where
  opened merged saved frozen submitted : BasketStatus

-- What one checkout reads and writes: the basket, the code assignments, the order once it is placed,
-- its shipping events, and the number of fulfillment tasks sent to the worker.
pub record Store : Type 0 where
  pub basket_status : BasketStatus
  pub tables : Tables
  pub order : Option Order
  pub events : List Event
  pub tasks : ℕ

-- The basket, and what Oscar and the settings answer. `email_opt_in` is the lookup of the basket
-- attribute, which raises when the type of the attribute is missing.
pub record Checkout : Type 0 where
  pub total_incl_tax : ℕ
  pub owner_email : ℕ
  pub voucher : Option Voucher
  pub application : Option ℕ
  pub email_opt_in : Result ⊤
  pub is_async : Bool
  pub freeze : BasketStatus → Result BasketStatus
  pub submit : BasketStatus → Result BasketStatus
  pub place_order : Result Order
  pub services : Services
  pub shipping : Shipping

abbrev pub with_tables : Store → Result ⊤ × Tables → Result ⊤ × Store
with_tables s (r, t) = (r, record s { tables = t })

abbrev pub on_tables : Action Tables ⊤ → Action Store ⊤
on_tables m s = with_tables s (m s.tables)

abbrev pub with_order : Store → Result ⊤ × (Order × List Event) → Result ⊤ × Store
with_order s (r, (o, events)) = (r, record s { order = some o; events = events })

-- `post_checkout.send`: what a receiver raises goes to the caller. Of the receivers, the one that
-- fulfills the order is modelled; the others track and notify.
abbrev pub fulfill_placed : Checkout → Store → Option Order → Result ⊤ × Store
fulfill_placed v s none = (ok tt, s)
fulfill_placed v s (some o) =
    with_order s (post_checkout_callback v.services v.shipping (o, s.events))

unfoldable pub send_post_checkout : Checkout → Action Store ⊤
unfolding post_checkout_callback
send_post_checkout v s = fulfill_placed v s s.order

abbrev pub add_task : Store → Store
add_task s = record s { tasks = suc s.tasks }

unfoldable pub handle_successful_order : Checkout → Action Store ⊤
unfolding create_assignments_for_multi_use_per_customer update_assigned_voucher_offer_assignment
    send_post_checkout
handle_successful_order v =
    call v.email_opt_in
    >> on_tables (create_assignments_for_multi_use_per_customer v.voucher v.owner_email)
    >> on_tables (update_assigned_voucher_offer_assignment v.voucher v.owner_email v.application)
    >> (if v.is_async then modify add_task else send_post_checkout v)

abbrev pub with_submitted : Store → Order → Result BasketStatus → Result ⊤ × Store
with_submitted s o (ok b) = (ok tt, record s { basket_status = b; order = some o })
with_submitted s o (raised e) = (raised e, s)

abbrev pub with_placed : Checkout → Store → Result Order → Result ⊤ × Store
with_placed v s (ok o) = with_submitted s o (v.submit s.basket_status)
with_placed v s (raised e) = (raised e, s)

-- The transaction: what raises in it leaves nothing behind.
unfoldable pub place_and_submit : Checkout → Action Store ⊤
place_and_submit v s = with_placed v s v.place_order

unfoldable pub handle_order_placement : Checkout → Action Store ⊤
unfolding place_and_submit handle_successful_order
handle_order_placement v = place_and_submit v >> handle_successful_order v

abbrev pub with_frozen : Store → Result BasketStatus → Result ⊤ × Store
with_frozen s (ok b) = (ok tt, record s { basket_status = b })
with_frozen s (raised e) = (raised e, s)

abbrev pub freeze_basket : Checkout → Action Store ⊤
freeze_basket v s = with_frozen s (v.freeze s.basket_status)

unfoldable pub place_free_order : Checkout → Action Store ⊤
unfolding handle_order_placement
place_free_order v =
    if not (v.total_incl_tax == 0)
    then raise not_free
    else freeze_basket v >> handle_order_placement v
