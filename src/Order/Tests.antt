-- ===== src/Order/Tests.antt =====
-- Order numbers, the check for repeated orders and the callback after a checkout at concrete inputs,
-- and the theorems about them applied there.
use edx_ecommerce.Base.{
  ℕ, ◌≡◌, refl, Bool, true, false, none, some, List, [], ◌∷◌, ◌++◌, ◌==◌, if◌then◌else◌,
}
use edx_ecommerce.Base.Action.{ok, raised, connection_error, value_error}
use edx_ecommerce.Base.Int.{pos}
use edx_ecommerce.Refund.{RefundLineStatus}
use edx_ecommerce.Order.Text.{Text, dash}
use edx_ecommerce.Order.Number.{
  order_number_from_basket_id, basket_id, basket_id-order_number, basket_id-dashed,
}
use edx_ecommerce.Order.Placed.{Line, Entitlements}
use edx_ecommerce.Order.Shipping.{
  Shipping, post_checkout_callback, post_checkout_callback-unshipped,
}
use edx_ecommerce.Fulfillment.{OrderStatus, all_complete}
use edx_ecommerce.Fulfillment.{supports_line}
use edx_ecommerce.Fulfillment.Outcome.{is_fulfillable}
use edx_ecommerce.Fulfillment.Order.{Order}
use edx_ecommerce.Fulfillment.Tests.{services, services-Succeeds, order}

abbrev edx : Text
edx = b'e' ∷ b'd' ∷ b'x' ∷ []

-- "EDX-100042"
numbered :
    order_number_from_basket_id edx 42
    ≡ b'E' ∷ b'D' ∷ b'X' ∷ dash ∷ b'1' ∷ b'0' ∷ b'0' ∷ b'0' ∷ b'4' ∷ b'2' ∷ []
unfolding order_number_from_basket_id
numbered = refl

basket_id-order_number_example : basket_id (order_number_from_basket_id edx 42) ≡ ok (pos 42)
basket_id-order_number_example = basket_id-order_number edx 42 refl

-- The partner "edx-2": all its order numbers give the basket id 2 - 100000.
dashed_partner :
    basket_id (order_number_from_basket_id (edx ++ dash ∷ b'x' ∷ []) 42) ≡ raised value_error
unfolding basket_id
dashed_partner = basket_id-dashed edx (b'x' ∷ []) 42 refl

abbrev bought : ℕ → Bool → List RefundLineStatus → Line
bought p entitlement refunds = record {
  product = p;
  user = 7;
  is_course_entitlement_product = entitlement;
  refund_statuses = refunds;
  entitlement_uuid = ok p;
}

-- Entitlement 2 has expired, that of product 3 cannot be asked for.
abbrev entitlements : Entitlements
entitlements = record {
  entitlement_option = ok tt;
  cached = λ uuid. if uuid == 2 then some true else none;
  lms = λ uuid. raised connection_error;
}

abbrev pub shipping : Shipping
shipping = record {
  validate_shipping_event = λ ls qs. ok tt;
  has_shipping_event_occurred = λ l. false;
  create_quantity = λ l q. ok tt;
  quantity = λ l. 1;
}

-- An order with a seat, an entitlement and an enrollment code is fulfilled.
post_checkout_callback-unshipped_example :
    (after : Order) × (post_checkout_callback services shipping (order, []) ≡ (ok tt, (after, [])))
    × (after.status ≡ OrderStatus.complete)
    × (all_complete after.lines ≡ true)
unfolding is_fulfillable supports_line
post_checkout_callback-unshipped_example =
    post_checkout_callback-unshipped services services-Succeeds shipping order [] refl refl refl
      refl refl
