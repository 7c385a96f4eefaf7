-- ===== src/Refund/Approve.antt =====
-- The methods `approve`, `deny` and the helpers that set the refund's status.
use edx_ecommerce.Base.{◌+◌, Bool, true, false, not, ◌&&◌, ◌||◌, List, ⊤, if◌then◌else◌}
use edx_ecommerce.Base.Action.{
  ok, raised, Exc, payment_error, pure, raise, gets, try_except, ◌>>=◌, ◌>>◌, modify, Action,
}
use edx_ecommerce.Refund.Status.{
  RefundStatus, RefundLineStatus, same_refund_status, refund_pipeline, available_statuses,
  set_status,
}
use edx_ecommerce.Refund.Rows.{RefundLine, State, Services, Method}
use edx_ecommerce.Refund.Credit.{issue_credit, issue_credit_for_enterprise_offer}
use edx_ecommerce.Refund.Revoke.{
  set_line_status, for_lines, complete_line, revoke_fulfillment_for_refund,
}

-- `refund.set_status(…)`
unfoldable pub set_refund_status : RefundStatus → Method ⊤
unfolding set_status available_statuses
set_refund_status new s = elim (set_status same_refund_status refund_pipeline s.refund.status new) [
  | ok t ↦ (ok tt, record s { refund = record (s.refund) { status = t } })
  | raised e ↦ (raised e, s)
]

abbrev pub status_is : RefundStatus → State → Bool
status_is t s = same_refund_status s.refund.status t

abbrev pub can_approve : State → Bool
can_approve s = not (status_is RefundStatus.complete s || status_is RefundStatus.denied s)

abbrev pub can_deny : State → Bool
can_deny s = status_is RefundStatus.opened s

-- A loop over the lines, as a method of the refund.
unfoldable pub on_lines : {A : Type 0} → Action (List RefundLine) A → Method A
on_lines m s =
    let (r, ls) = m s.refund.lines in (r, record s { refund = record (s.refund) { lines = ls } })

unfoldable pub revoke_lines : Services → Method ⊤
unfolding set_refund_status on_lines
revoke_lines v = do
  total ← gets (λ s. s.refund.total_credit_excl_tax)
  done ← on_lines (revoke_fulfillment_for_refund v.modules total)
  set_refund_status (if done then RefundStatus.complete else RefundStatus.revocation_error)

abbrev is_payment_error : Exc → Bool
is_payment_error payment_error = true
is_payment_error _ = false

-- The `try` statement of `approve`; `false` stands for its `return False`.
unfoldable pub pay_back : Services → Method Bool
unfolding set_refund_status
pay_back v =
    try_except (issue_credit v >> set_refund_status RefundStatus.payment_refunded >> pure true) λ e.
      if is_payment_error e
      then set_refund_status RefundStatus.payment_refund_error >> pure false
      else raise e

-- The last two `if` statements of `approve`.
unfoldable pub finish : (revoke_fulfillment : Bool) → Method Bool
unfolding set_refund_status on_lines for_lines complete_line
finish revoke = do
  skip ← gets (λ s. not revoke && status_is RefundStatus.payment_refunded s)
  if skip
      then (set_refund_status RefundStatus.complete
          >> on_lines (for_lines complete_line true)
          >> pure tt)
      else pure tt
  done ← gets (status_is RefundStatus.complete)
  if done
      then (modify (λ s. record s { post_refunds = s.post_refunds + 1 }) >> pure true)
      else pure false

-- What follows the payment in `approve`.
unfoldable pub settle : Services → (revoke_fulfillment : Bool) → Method Bool
unfolding revoke_lines finish
settle v revoke = do
  due ← gets (λ s.
      revoke
      && (status_is RefundStatus.payment_refunded s || status_is RefundStatus.revocation_error s))
  if due then revoke_lines v else pure tt
  finish revoke

unfoldable pub approve : Services → (revoke_fulfillment : Bool) → Method Bool
unfolding pay_back settle issue_credit_for_enterprise_offer
approve v revoke = do
  completed ← gets (status_is RefundStatus.complete)
  allowed ← gets can_approve
  unpaid ←
      gets (λ s. status_is RefundStatus.opened s || status_is RefundStatus.payment_refund_error s)
  if completed
      then pure true
      else if not allowed
      then pure false
      else if not unpaid
      then settle v revoke
      else do
        paid ← pay_back v
        if paid then (issue_credit_for_enterprise_offer v >> settle v revoke) else pure false

-- The loop of `deny`, which catches whatever `line.deny()` raises.
unfoldable pub deny_line : Bool → Action RefundLine Bool
unfolding set_line_status
deny_line result =
    try_except (set_line_status RefundLineStatus.denied >> pure result) λ e. pure false

unfoldable pub deny : Method Bool
unfolding set_refund_status on_lines for_lines deny_line
deny = do
  already ← gets (status_is RefundStatus.denied)
  allowed ← gets can_deny
  if already
      then pure true
      else if not allowed
      then pure false
      else (set_refund_status RefundStatus.denied >> on_lines (for_lines deny_line true))
