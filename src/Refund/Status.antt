-- ===== src/Refund/Status.antt =====
-- `StatusMixin` of ecommerce/extensions/refund/models.py, the statuses of refunds and refund lines
-- (ecommerce/extensions/refund/status.py) and their pipelines (ecommerce/settings/_oscar.py).
use edx_ecommerce.Base.{ℕ, Bool, List, [], ◌∷◌, ◌==◌, if◌then◌else◌, any}
use edx_ecommerce.Base.Action.{Result, ok, raised, invalid_status}

-- A pipeline maps a status to those that it can move to.
abbrev pub Pipeline : Type 0 → Type 0
Pipeline S = List (S × List S)

module _ {S : Type 0} (same : S → S → Bool) where
  -- `self.pipeline.get(self.status, ())`
  unfoldable pub available_statuses : Pipeline S → S → List S
  available_statuses [] s = []
  available_statuses ((t, next) ∷ p) s = if same t s then next else available_statuses p s

  -- The status that `set_status` saves, or the exception that it raises.
  unfoldable pub set_status : Pipeline S → S → S → Result S
  unfolding available_statuses
  set_status p s new =
      if any (same new) (available_statuses p s) then ok new else raised invalid_status

pub data RefundStatus : Type 0 where
  opened denied payment_refund_error payment_refunded revocation_error complete : RefundStatus

pub data RefundLineStatus : Type 0 where
  opened revocation_error denied complete : RefundLineStatus

abbrev pub refund_code : RefundStatus → ℕ
refund_code opened = 0
refund_code denied = 1
refund_code payment_refund_error = 2
refund_code payment_refunded = 3
refund_code revocation_error = 4
refund_code complete = 5

abbrev pub line_code : RefundLineStatus → ℕ
line_code opened = 0
line_code revocation_error = 1
line_code denied = 2
line_code complete = 3

abbrev pub same_refund_status : RefundStatus → RefundStatus → Bool
same_refund_status a b = refund_code a == refund_code b

abbrev pub same_line_status : RefundLineStatus → RefundLineStatus → Bool
same_line_status a b = line_code a == line_code b

-- `OSCAR_REFUND_STATUS_PIPELINE`
abbrev pub refund_pipeline : Pipeline RefundStatus
refund_pipeline =
    (opened, denied ∷ payment_refund_error ∷ payment_refunded ∷ [])
    ∷ (payment_refund_error, payment_refunded ∷ payment_refund_error ∷ [])
    ∷ (payment_refunded, revocation_error ∷ complete ∷ [])
    ∷ (revocation_error, revocation_error ∷ complete ∷ [])
    ∷ (denied, [])
    ∷ (complete, [])
    ∷ []

-- `OSCAR_REFUND_LINE_STATUS_PIPELINE`
abbrev pub line_pipeline : Pipeline RefundLineStatus
line_pipeline =
    (opened, denied ∷ revocation_error ∷ complete ∷ [])
    ∷ (revocation_error, revocation_error ∷ complete ∷ [])
    ∷ (denied, [])
    ∷ (complete, [])
    ∷ []
