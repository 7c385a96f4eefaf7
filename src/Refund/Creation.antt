-- ===== src/Refund/Creation.antt =====
-- `Refund.create_with_lines` of ecommerce/extensions/refund/models.py, and `create_refunds` and
-- `create_refunds_for_entitlement` of ecommerce/extensions/refund/api.py.
use edx_ecommerce.Base.{
  ℕ, Bool, true, false, not, ◌&&◌, Option, none, some, List, [], ◌∷◌, ◌++◌, ◌==◌, if◌then◌else◌,
  any, keep, map, sum_of,
}
use edx_ecommerce.Base.Action.{Result, ok, raised, other}
use edx_ecommerce.Offer.{ConditionalOffer}
use edx_ecommerce.Refund.Status.{RefundStatus, RefundLineStatus}
use edx_ecommerce.Refund.Rows.{
  OrderLine, RefundLine, OrderInfo, PaymentEvent, Refund, State, Services,
}
use edx_ecommerce.Refund.Approve.{approve}

-- `line.refund_lines.exclude(status=DENIED)`: `refunds` are all rows of the refund table.
abbrev pub is_active : RefundLineStatus → Bool
is_active RefundLineStatus.denied = false
is_active _ = true

abbrev pub is_active_for : ℕ → RefundLine → Bool
is_active_for i l = l.order_line.id == i && is_active l.status

unfoldable pub has_active_refund : List Refund → OrderLine → Bool
has_active_refund refunds o = any (λ r. any (is_active_for o.id) r.lines) refunds

-- `line.refund_lines` is not empty.
unfoldable pub has_refund : List Refund → OrderLine → Bool
has_refund refunds o = any (λ r. any (λ l. l.order_line.id == o.id) r.lines) refunds

abbrev pub new_line : OrderLine → RefundLine
new_line o = record {
  order_line = o;
  line_credit_excl_tax = o.line_price_excl_tax;
  quantity = o.quantity;
  status = RefundLineStatus.opened;
}

abbrev pub new_refund : OrderInfo → List OrderLine → Refund
new_refund order lines = record {
  order = order;
  total_credit_excl_tax = sum_of (λ o. o.line_price_excl_tax) lines;
  status = RefundStatus.opened;
  lines = map new_line lines;
}

-- What a refund's methods write besides the refund's own rows.
pub record World : Type 0 where
  pub source_refunds : List PaymentEvent
  pub events : List PaymentEvent
  pub offers : List ConditionalOffer
  pub post_refunds : ℕ

abbrev pub in_world : World → Refund → State
in_world w r = record {
  refund = r;
  source_refunds = w.source_refunds;
  events = w.events;
  offers = w.offers;
  post_refunds = w.post_refunds;
}

abbrev pub world_of : State → World
world_of s = record {
  source_refunds = s.source_refunds;
  events = s.events;
  offers = s.offers;
  post_refunds = s.post_refunds;
}

-- A refund without a credit is approved at once; what `approve` returns is dropped.
unfoldable pub approve_if_free : Services → State → Result Bool × State
approve_if_free v s = if s.refund.total_credit_excl_tax == 0 then approve v true s else (ok true, s)

unfoldable pub unrefunded : List Refund → List OrderLine → List OrderLine
unfolding has_active_refund
unrefunded refunds lines = keep (λ o. not (has_active_refund refunds o)) lines

abbrev pub create_for : Services → OrderInfo → World → List OrderLine → Option (Result Bool × State)
create_for v order w [] = none
create_for v order w (o ∷ os) = some (approve_if_free v (in_world w (new_refund order (o ∷ os))))

-- `none` is the `return None`. Otherwise a refund is created, the one of the state; the result
-- tells whether its approval raised.
unfoldable pub create_with_lines :
    Services → OrderInfo → List OrderLine → List Refund → World → Option (Result Bool × State)
unfolding unrefunded approve_if_free
create_with_lines v order lines refunds w = create_for v order w (unrefunded refunds lines)

pub record Order : Type 0 where
  pub info : OrderInfo
  pub lines : List OrderLine

abbrev pub is_for : Option ℕ → ℕ → Bool
is_for none k = false
is_for (some j) k = j == k

-- What the creation of a refund leaves: the refund table, and what was written besides.
abbrev pub Tables : Type 0
Tables = List Refund × World

abbrev pub add_refund : List Refund → State → Tables
add_refund refunds s = (refunds ++ (s.refund ∷ []), world_of s)

-- What follows one round of the loop of `create_refunds`.
abbrev pub then_orders :
    Option (Result Bool × State)
    → Tables
    → (Tables → Result (List Refund) × Tables)
    → Result (List Refund) × Tables
then_orders none t rest = rest t
then_orders (some (ok b, s)) t rest =
    let (r, t') = rest (add_refund t.0 s) in
    (elim r [ ok rs ↦ ok (s.refund ∷ rs) | raised e ↦ raised e ], t')
then_orders (some (raised e, s)) t rest = (raised e, add_refund t.0 s)

unfoldable pub create_refunds :
    Services → List Order → (course_id : ℕ) → Tables → Result (List Refund) × Tables
unfolding create_with_lines has_refund
create_refunds v [] course_id t = (ok [], t)
create_refunds v (o ∷ os) course_id t =
    then_orders
      (create_with_lines v o.info
        (keep (λ l. not (has_refund t.0 l) && is_for l.course_key course_id) o.lines) t.0 t.1)
      t (create_refunds v os course_id)

-- `order.lines.get(…)` raises unless exactly one line fits.
abbrev pub create_for_one :
    Services → OrderInfo → Tables → List OrderLine → Result (List Refund) × Tables
create_for_one v order t (l ∷ []) =
    then_orders (create_with_lines v order (l ∷ []) t.0 t.1) t (λ t'. (ok [], t'))
create_for_one v order t _ = (raised other, t)

unfoldable pub create_refunds_for_entitlement :
    Services → Order → (entitlement_uuid : ℕ) → Tables → Result (List Refund) × Tables
unfolding create_with_lines has_refund
create_refunds_for_entitlement v o uuid t =
    create_for_one v o.info t
      (keep (λ l. not (has_refund t.0 l) && is_for l.entitlement_uuid uuid) o.lines)
