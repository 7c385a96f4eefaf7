-- ===== src/Refund/Payment.antt =====
-- What the payment step of `approve` does for each answer of the payment processor.
use edx_ecommerce.Base.{ℕ, ◌≡◌, refl, Bool, true, false, Option, none, some}
use edx_ecommerce.Base.Action.{Result, ok, raised, payment_error, attribute_error}
use edx_ecommerce.Refund.{RefundStatus, State, Services, record_credit, issue_credit}
use edx_ecommerce.Refund.Approve.{pay_back}

-- Every state is of this form, so a lemma can be proved for each status in turn.
abbrev pub at : RefundStatus → State → State
at t s = record s { refund = record (s.refund) { status = t } }

-- The same for the source of the order's payment.
abbrev pub paid_from : Option ℕ → State → State
paid_from src s = record s {
  refund = record (s.refund) { order = record (s.refund.order) { source = src } };
}

abbrev pub is_unpaid : RefundStatus → Bool
is_unpaid RefundStatus.opened = true
is_unpaid RefundStatus.payment_refund_error = true
is_unpaid _ = false

abbrev pub credited : ℕ → State → State
credited ref s =
    at RefundStatus.payment_refunded
      (record_credit (record { amount = s.refund.total_credit_excl_tax; reference = ref }) s)

-- The result and the state that each answer leads to.
abbrev pub after_answer : Result ℕ → State → Result Bool × State
after_answer (ok ref) s = (ok true, credited ref s)
after_answer (raised payment_error) s = (ok false, at RefundStatus.payment_refund_error s)
after_answer (raised attribute_error) s = (ok true, at RefundStatus.payment_refunded s)
after_answer (raised e) s = (raised e, s)

-- The processor as if it answered `r` to everything: only one call is made.
abbrev answering : Result ℕ → Services → Services
answering r v = record v { issue_credit = λ _ _. r }

opened_answered :
    (v : Services) (x : ℕ) (s : State) (r : Result ℕ)
    → pay_back (answering r v) (at RefundStatus.opened (paid_from (some x) s))
      ≡ after_answer r (at RefundStatus.opened (paid_from (some x) s))
unfolding pay_back issue_credit
opened_answered v x s (ok ref) = refl
opened_answered v x s (raised payment_error) = refl
opened_answered v x s (raised _) = refl

retry_answered :
    (v : Services) (x : ℕ) (s : State) (r : Result ℕ)
    → pay_back (answering r v) (at RefundStatus.payment_refund_error (paid_from (some x) s))
      ≡ after_answer r (at RefundStatus.payment_refund_error (paid_from (some x) s))
unfolding pay_back issue_credit
retry_answered v x s (ok ref) = refl
retry_answered v x s (raised payment_error) = refl
retry_answered v x s (raised _) = refl

answered :
    (v : Services) (t : RefundStatus) (x : ℕ) (s : State)
    → is_unpaid t ≡ true
    → pay_back v (at t (paid_from (some x) s))
      ≡ after_answer (v.issue_credit x s.refund.total_credit_excl_tax) (at t (paid_from (some x) s))
unfolding pay_back issue_credit
answered v RefundStatus.opened x s u =
    opened_answered v x s (v.issue_credit x s.refund.total_credit_excl_tax)
answered v RefundStatus.payment_refund_error x s u =
    retry_answered v x s (v.issue_credit x s.refund.total_credit_excl_tax)
answered v _ x s u = cc

-- The payment step of an open refund, or of one whose payment failed, where the order has a source:
-- an answer is booked at the source and as an event, for the whole credit, and the payment counts as
-- refunded; a payment error is noted and ends `approve` with `False`; an `AttributeError` from the
-- processor counts as refunded with nothing booked; any other exception leaves all as it was.
pub pay_back-source :
    (v : Services) (s : State) (x : ℕ)
    → is_unpaid s.refund.status ≡ true
    → pay_back v (paid_from (some x) s)
      ≡ after_answer (v.issue_credit x s.refund.total_credit_excl_tax) (paid_from (some x) s)
pay_back-source v s x u = answered v s.refund.status x s u

no_source :
    (v : Services) (t : RefundStatus) (s : State)
    → is_unpaid t ≡ true
    → pay_back v (at t (paid_from none s))
      ≡ (ok true, at RefundStatus.payment_refunded (paid_from none s))
unfolding pay_back issue_credit
no_source v RefundStatus.opened s u = refl
no_source v RefundStatus.payment_refund_error s u = refl
no_source v _ s u = cc

pub pay_back-no_source :
    (v : Services) (s : State)
    → is_unpaid s.refund.status ≡ true
    → pay_back v (paid_from none s) ≡ (ok true, at RefundStatus.payment_refunded (paid_from none s))
pay_back-no_source v s u = no_source v s.refund.status s u
