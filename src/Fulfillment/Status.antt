-- ===== src/Fulfillment/Status.antt =====
-- The statuses of orders and order lines (ecommerce/extensions/fulfillment/status.py), their
-- pipelines (ecommerce/settings/_oscar.py), and what Oscar's models do with them.
use edx_ecommerce.Base.{ℕ, ◌≡◌, Bool, true, List, [], ◌∷◌, ◌==◌, any}
use edx_ecommerce.Base.Action.{Result, ok}
use edx_ecommerce.Refund.{Pipeline, available_statuses}

pub data OrderStatus : Type 0 where
  complete fulfillment_error payment_error opened pending : OrderStatus

pub data LineStatus : Type 0 where
  complete configuration_error network_error timeout_error server_error opened : LineStatus

abbrev pub order_code : OrderStatus → ℕ
order_code complete = 0
order_code fulfillment_error = 1
order_code payment_error = 2
order_code opened = 3
order_code pending = 4

abbrev pub line_code : LineStatus → ℕ
line_code complete = 0
line_code configuration_error = 1
line_code network_error = 2
line_code timeout_error = 3
line_code server_error = 4
line_code opened = 5

abbrev pub same_order_status : OrderStatus → OrderStatus → Bool
same_order_status a b = order_code a == order_code b

abbrev pub same_line_status : LineStatus → LineStatus → Bool
same_line_status a b = line_code a == line_code b

-- `OSCAR_ORDER_STATUS_PIPELINE`
abbrev pub order_pipeline : Pipeline OrderStatus
order_pipeline =
    (pending, opened ∷ payment_error ∷ [])
    ∷ (payment_error, [])
    ∷ (opened, complete ∷ fulfillment_error ∷ [])
    ∷ (fulfillment_error, complete ∷ [])
    ∷ (complete, [])
    ∷ []

-- `OSCAR_LINE_STATUS_PIPELINE`
abbrev pub line_pipeline : Pipeline LineStatus
line_pipeline =
    (opened, complete ∷ configuration_error ∷ network_error ∷ timeout_error ∷ server_error ∷ [])
    ∷ (configuration_error, complete ∷ [])
    ∷ (network_error, complete ∷ [])
    ∷ (timeout_error, complete ∷ [])
    ∷ (server_error, complete ∷ [])
    ∷ (complete, [])
    ∷ []

-- `set_status` and `available_statuses` of Oscar's `AbstractOrder` and `AbstractLine`: the status
-- that is saved, or the exception.
pub record Oscar : Type 0 where
  pub available_order_statuses : OrderStatus → List OrderStatus
  pub set_order_status : (old new : OrderStatus) → Result OrderStatus
  pub set_line_status : (old new : LineStatus) → Result LineStatus

-- What Oscar documents of them: a status in the pipeline, or the same status, is accepted.
pub record OscarLaws (o : Oscar) : Type 0 where
  pub available :
      (s : OrderStatus)
      → o.available_order_statuses s ≡ available_statuses same_order_status order_pipeline s
  pub order_same : (s : OrderStatus) → o.set_order_status s s ≡ ok s
  pub order_allowed :
      (s t : OrderStatus)
      → any (same_order_status t) (available_statuses same_order_status order_pipeline s) ≡ true
      → o.set_order_status s t ≡ ok t
  pub line_same : (s : LineStatus) → o.set_line_status s s ≡ ok s
  pub line_allowed :
      (s t : LineStatus)
      → any (same_line_status t) (available_statuses same_line_status line_pipeline s) ≡ true
      → o.set_line_status s t ≡ ok t
