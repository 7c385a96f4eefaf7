-- ===== src/Refund/Credit.antt =====
-- `Refund._issue_credit` and `Refund._issue_credit_for_enterprise_offer`.
use edx_ecommerce.Base.{
  ℕ, Bool, true, false, Option, none, some, List, [], ◌∷◌, ◌++◌, ⊤, ◌&&◌, ◌==◌, if◌then◌else◌,
  is_some, length,
}
use edx_ecommerce.Base.Int.{pos, ◌-ℤ◌}
use edx_ecommerce.Base.Action.{
  Exc, attribute_error, pure, raise, gets, call, or_raise, try_except, ◌>>=◌, modify,
}
use edx_ecommerce.Offer.{ConditionalOffer, is_site}
use edx_ecommerce.Refund.Rows.{OrderDiscount, PaymentEvent, State, Services, Method}

abbrev pub record_credit : PaymentEvent → State → State
record_credit e s = record s {
  source_refunds = s.source_refunds ++ (e ∷ []);
  events = s.events ++ (e ∷ []);
}

-- The `try` block: without a source, reading `source_type` raises `AttributeError`.
unfoldable pub credit_source : Services → Method ⊤
credit_source v = do
  source ← or_raise (← gets (λ s. s.refund.order.source)) attribute_error
  amount ← gets (λ s. s.refund.total_credit_excl_tax)
  reference ← call (v.issue_credit source amount)
  modify (record_credit (record { amount = amount; reference = reference }))

abbrev is_attribute_error : Exc → Bool
is_attribute_error attribute_error = true
is_attribute_error _ = false

unfoldable pub issue_credit : Services → Method ⊤
unfolding credit_source
issue_credit v = try_except (credit_source v) λ e. if is_attribute_error e then pure tt else raise e

-- `ConditionalOffer.objects.get(id=…)`, which `discount.offer` makes anew for each discount.
unfoldable pub find_offer : ℕ → List ConditionalOffer → Option ConditionalOffer
find_offer i [] = none
find_offer i (o ∷ os) = if o.id == i then some o else find_offer i os

-- `offer.save()`
unfoldable pub save_offer : ConditionalOffer → List ConditionalOffer → List ConditionalOffer
save_offer o [] = []
save_offer o (p ∷ os) = if p.id == o.id then o ∷ os else p ∷ save_offer o os

-- The opposite of Oscar's `record_usage`.
abbrev pub credit_offer : OrderDiscount → ConditionalOffer → ConditionalOffer
credit_offer d o = record o {
  num_applications = o.num_applications -ℤ pos d.frequency;
  num_orders = o.num_orders -ℤ pos 1;
  total_discount = o.total_discount -ℤ pos d.amount;
}

-- The loop of `_issue_credit_for_enterprise_offer`. `whole` tells whether the refund has as many
-- lines as the order; an exception or the `return` ends the loop and keeps what was saved.
unfoldable pub credit_discounts :
    Services → (whole : Bool) → List OrderDiscount → List ConditionalOffer → List ConditionalOffer
unfolding find_offer save_offer
credit_discounts v whole [] os = os
credit_discounts v whole (d ∷ ds) os = elim (find_offer d.offer_id os) [
  | none ↦ os
  | some o ↦
      if is_site o.offer_type && is_some o.enterprise_customer_uuid
      then if whole && v.saves_offer (credit_offer d o)
        then credit_discounts v whole ds (save_offer (credit_offer d o) os)
        else os
      else credit_discounts v whole ds os
]

unfoldable pub issue_credit_for_enterprise_offer : Services → Method ⊤
unfolding credit_discounts
issue_credit_for_enterprise_offer v = modify λ s. record s {
  offers =
      credit_discounts v (length s.refund.lines == s.refund.order.num_lines)
        s.refund.order.discounts s.offers;
}
