-- ===== src/Iap/Response.antt =====
-- `BaseIAP.handle_processor_response` of ecommerce/extensions/iap/processors/base_iap.py, with
-- `is_payment_redundant` of ios_iap.py and android_iap.py beside it.
use edx_ecommerce.Base.{
  ℕ, zero, suc, Bool, true, false, not, ◌&&◌, Option, none, some, List, [], ◌∷◌, ◌++◌, ◌==◌, any,
  if◌then◌else◌,
}
use edx_ecommerce.Base.Action.{
  Action, Result, ok, raised, index_error, gateway_error, payment_error, redundant_payment, call,
  ◌>>=◌,
}

-- `NAME`: `ios-iap` or `android-iap`.
pub data Name : Type 0 where
  ios android : Name

-- A row of `PaymentProcessorResponse` with its extension.
pub record Row : Type 0 where
  pub processor_name : Name
  pub transaction_id : Option ℕ
  pub original_transaction_id : Option ℕ
  pub basket : ℕ

pub record Purchase : Type 0 where
  pub product_id : ℕ
  pub purchase_date_ms : ℕ
  pub transaction_id : Option ℕ
  pub original_transaction_id : Option ℕ

-- What a validator answers without an error: the receipt of iOS, with its purchases, or the
-- `raw_response` of Android, whose `orderId` is the transaction.
pub data Receipt : Type 0 where
  ios_receipt : (receipt_creation_date_ms : ℕ) → (in_app : List Purchase) → Receipt
  raw_response : (order_id original_transaction_id : Option ℕ) → Receipt

-- What the application sends; a key that is missing is `none`.
pub record Response : Type 0 where
  pub product_id : ℕ
  pub transaction_id : Option ℕ
  pub original_transaction_id : Option ℕ

-- The basket, the settings and the validator: its answer by the attempt, `none` for an error.
pub record Processor : Type 0 where
  pub name : Name
  pub basket : ℕ
  pub total : ℕ
  pub retries : Bool
  pub retry_attempts : ℕ
  pub disable_redundant_check : Bool
  pub validate : (attempt : ℕ) → Option Receipt

pub record Handled : Type 0 where
  pub transaction_id : Option ℕ
  pub total : ℕ

abbrev pub add_row : Row → List Row → List Row
add_row r rows = rows ++ r ∷ []

abbrev pub failed_row : Processor → Row
failed_row y = record {
  processor_name = y.name;
  transaction_id = none;
  original_transaction_id = none;
  basket = y.basket;
}

-- The loop over the attempts from `attempt` on, of which `more` are left after it.
unfoldable pub attempts : Processor → (more attempt : ℕ) → Action (List Row) Receipt
attempts y zero attempt rows = elim (y.validate attempt) [
  | some receipt ↦ (ok receipt, rows)
  | none ↦ (raised gateway_error, add_row (failed_row y) rows)
]
attempts y (suc more) attempt rows = elim (y.validate attempt) [
  | some receipt ↦ (ok receipt, rows)
  | none ↦ attempts y more (suc attempt) (add_row (failed_row y) rows)
]

abbrev pub is_ios : Name → Bool
is_ios ios = true
is_ios android = false

-- The purchase of the product at the date of the receipt, if there is one.
unfoldable pub find_purchase : (product_id date : ℕ) → List Purchase → Option Purchase
find_purchase product_id date [] = none
find_purchase product_id date (p ∷ ps) =
    let rest = find_purchase product_id date ps in
    if (p.product_id == product_id) && (date == p.purchase_date_ms) then some p else rest

abbrev pub only : Option Purchase → List Purchase → List Purchase
only none ps = ps
only (some p) ps = p ∷ []

unfoldable pub parse_ios_response : Receipt → (product_id : ℕ) → Receipt
unfolding find_purchase
parse_ios_response (ios_receipt date ps) product_id =
    ios_receipt date (only (find_purchase product_id date ps) ps)
parse_ios_response (raw_response t o) product_id = raw_response t o

-- The transaction and the original transaction of the first purchase; no purchase is an `IndexError`.
unfoldable pub attributes : Receipt → Result (Option ℕ × Option ℕ)
attributes (ios_receipt date []) = raised index_error
attributes (ios_receipt date (p ∷ ps)) = ok (p.transaction_id, p.original_transaction_id)
attributes (raw_response t o) = ok (t, o)

-- `response.get(key, default)`
abbrev pub get : Option ℕ → (default : Option ℕ) → Option ℕ
get none default = default
get (some x) default = some x

abbrev pub same : Option ℕ → Option ℕ → Bool
same none none = true
same (some a) (some b) = a == b
same none (some b) = false
same (some a) none = false

abbrev pub same_name : Name → Name → Bool
same_name ios ios = true
same_name android android = true
same_name ios android = false
same_name android ios = false

-- What a payment is told apart by.
abbrev pub identity : Name → (original_transaction_id transaction_id : Option ℕ) → Option ℕ
identity ios original transaction = original
identity android original transaction = transaction

unfoldable pub is_payment_redundant :
    Name → (original_transaction_id transaction_id : Option ℕ) → List Row → Bool
is_payment_redundant name original transaction rows =
    any
      (λ (r : Row).
        same_name r.processor_name name
        && same (identity name r.original_transaction_id r.transaction_id)
            (identity name original transaction))
      rows

abbrev pub lacks_original : Name → Option ℕ → Bool
lacks_original ios none = true
lacks_original _ _ = false

abbrev pub accepted_row : Processor → (original transaction : Option ℕ) → Row
accepted_row y original transaction = record {
  processor_name = y.name;
  transaction_id = transaction;
  original_transaction_id = original;
  basket = y.basket;
}

-- The payment is checked, recorded and accepted.
unfoldable pub accept : Processor → (original transaction : Option ℕ) → Action (List Row) Handled
unfolding is_payment_redundant
accept y original transaction rows =
    if lacks_original y.name original
    then (raised payment_error, rows)
    else if not y.disable_redundant_check && is_payment_redundant y.name original transaction rows
    then (raised redundant_payment, rows)
    else (
      ok (record { transaction_id = transaction; total = y.total }),
      add_row (accepted_row y original transaction) rows,
    )

abbrev pub accept_attributes :
    Processor → Response → Option ℕ × Option ℕ → Action (List Row) Handled
accept_attributes y r (transaction, original) =
    accept y (get r.original_transaction_id original) (get r.transaction_id transaction)

abbrev pub accept_receipt : Processor → Response → Receipt → Action (List Row) Handled
accept_receipt y r receipt =
    call (attributes (if is_ios y.name then parse_ios_response receipt r.product_id else receipt))
    >>= accept_attributes y r

unfoldable pub handle_processor_response : Processor → Response → Action (List Row) Handled
unfolding attempts accept attributes parse_ios_response
handle_processor_response y r =
    attempts y (if y.retries then y.retry_attempts else 0) 1 >>= accept_receipt y r
