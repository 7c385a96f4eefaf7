-- ===== src/Refund/Rows.antt =====
-- The rows that a refund reads and writes, and what it calls outside this repository.
use edx_ecommerce.Base.{ℕ, Bool, Option, List}
use edx_ecommerce.Base.Action.{Result, Action}
use edx_ecommerce.Offer.{ConditionalOffer}
use edx_ecommerce.Refund.Status.{RefundStatus, RefundLineStatus}

-- An order line, as far as refunds read it; prices are in cents.
pub record OrderLine : Type 0 where
  pub id : ℕ
  pub line_price_excl_tax : ℕ
  pub quantity : ℕ
  pub course_key : Option ℕ
  pub entitlement_uuid : Option ℕ

pub record RefundLine : Type 0 where
  pub order_line : OrderLine
  pub line_credit_excl_tax : ℕ
  pub quantity : ℕ
  pub status : RefundLineStatus

-- A row of `order.discounts`.
pub record OrderDiscount : Type 0 where
  pub offer_id : ℕ
  pub amount : ℕ
  pub frequency : ℕ

-- A payment event `Refunded`: the amount and the processor's reference number.
pub record PaymentEvent : Type 0 where
  pub amount : ℕ
  pub reference : ℕ

-- What a refund reads of its order. `source` is `order.sources.first()`, by its reference.
pub record OrderInfo : Type 0 where
  pub source : Option ℕ
  pub discounts : List OrderDiscount
  pub num_lines : ℕ

pub record Refund : Type 0 where
  pub order : OrderInfo
  pub total_credit_excl_tax : ℕ
  pub status : RefundStatus
  pub lines : List RefundLine

-- The refund's row and what its methods write elsewhere: the amounts given to `source.refund`, the
-- payment events, the offers, and how often `post_refund` was sent.
pub record State : Type 0 where
  pub refund : Refund
  pub source_refunds : List PaymentEvent
  pub events : List PaymentEvent
  pub offers : List ConditionalOffer
  pub post_refunds : ℕ

-- A fulfillment module, as far as a refund calls it.
pub record RevokeModule : Type 0 where
  pub supports_line : OrderLine → Bool
  pub revoke_line : OrderLine → Result Bool

-- What the calls out of the refund answer while one method runs: the payment processor (its lookup
-- by name included) for an amount, the saving of an offer, and the fulfillment modules.
pub record Services : Type 0 where
  pub issue_credit : (source amount : ℕ) → Result ℕ
  pub saves_offer : ConditionalOffer → Bool
  pub modules : List RevokeModule

abbrev pub Method : Type 0 → Type 0
Method A = Action State A
