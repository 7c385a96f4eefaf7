-- ===== src/Enterprise/Limits.antt =====
-- The limits of an enterprise offer, on all discounts and on those of one user. Amounts are counted
-- in a unit that divides a cent and every product of floats that occurs.
use edx_ecommerce.Base.{
  ℕ, Bool, true, not, ◌&&◌, Option, none, some, ◌==◌, ltb, if◌then◌else◌, any, keep, sum_of,
}
use edx_ecommerce.Base.Int.{ℤ, pos, ◌+ℤ◌, leb_ℤ}
use edx_ecommerce.Offer.{ConditionalOffer, percentage, fixed}
use edx_ecommerce.Fulfillment.{OrderStatus, same_order_status}
use edx_ecommerce.Refund.{RefundStatus, same_refund_status}
use edx_ecommerce.Enterprise.Rows.{Basket, Services}

-- `OFFER_PRIORITY_ENTERPRISE`
abbrev pub priority_enterprise : ℕ
priority_enterprise = 10

-- The order has a complete refund of the user.
abbrev pub is_refunded : Services → (user order : ℕ) → Bool
is_refunded v user order =
    any
      (λ r.
        ((r.user_id == user) && same_refund_status r.status RefundStatus.complete)
        && (r.order_id == order))
      v.refunds

unfoldable pub sum_user_discounts_for_offer : Services → (user : ℕ) → ConditionalOffer → ℕ
sum_user_discounts_for_offer v user offer =
    sum_of (λ d. d.amount)
      (keep
        (λ d.
          (((d.offer_id == offer.id) && (d.order_user == user))
            && same_order_status d.order_status OrderStatus.complete)
          && not (is_refunded v user d.order_id))
        v.discounts)

-- `Sum('stockrecord__price')` over the lines.
abbrev pub sum_basket_lines : Basket → ℕ
sum_basket_lines b = sum_of (λ l. l.price) b.lines

unfoldable pub get_basket_discount_value : Services → Basket → ConditionalOffer → ℕ
get_basket_discount_value v b offer = elim offer.benefit_type [
  | percentage ↦ v.percentage_of offer.benefit_value (sum_basket_lines b)
  | fixed ↦
      if ltb (sum_basket_lines b) offer.benefit_value
      then sum_basket_lines b
      else offer.benefit_value
]

abbrev pub within : Option ℤ → ℤ → Bool
within none total = true
within (some limit) total = leb_ℤ total limit

unfoldable pub is_offer_max_discount_available : Services → Basket → ConditionalOffer → Bool
unfolding get_basket_discount_value ◌+ℤ◌
is_offer_max_discount_available v b offer =
    if not (offer.priority == priority_enterprise)
    then true
    else within offer.max_discount
        (pos (get_basket_discount_value v b offer) +ℤ offer.total_discount)

unfoldable pub is_offer_max_user_discount_available :
    Services → (user : ℕ) → Basket → ConditionalOffer → Bool
unfolding get_basket_discount_value sum_user_discounts_for_offer ◌+ℤ◌
is_offer_max_user_discount_available v user b offer =
    if not (offer.priority == priority_enterprise)
    then true
    else within offer.max_user_discount (
        pos (get_basket_discount_value v b offer)
        +ℤ pos (sum_user_discounts_for_offer v user offer))
