-- ===== src/Refund/Settlement.antt =====
-- `approve` after the payment step: what each outcome of the revocation leads to, and a retry.
use edx_ecommerce.Base.{◌+◌, ◌≡◌, refl, Bool, true, false, List, if◌then◌else◌}
use edx_ecommerce.Base.Action.{Result, ok, raised, Action, ◌>>=◌, ◌>>◌}
use edx_ecommerce.Refund.{
  RefundStatus, RefundLine, State, Services, Method, revoke_fulfillment_for_refund,
}
use edx_ecommerce.Refund.Payment.{at}
use edx_ecommerce.Refund.Approve.{
  approve, settle, finish, revoke_lines, set_refund_status, on_lines,
}

-- The statuses in which `approve` revokes the fulfillment and does nothing before.
abbrev pub is_due : RefundStatus → Bool
is_due RefundStatus.payment_refunded = true
is_due RefundStatus.revocation_error = true
is_due _ = false

abbrev pub with_lines : List RefundLine → State → State
with_lines ls s = record s { refund = record (s.refund) { lines = ls } }

-- The result and the state that each outcome of `revoke_fulfillment_for_refund` leads to.
abbrev pub after_revoking : Result Bool × List RefundLine → State → Result Bool × State
after_revoking (ok true, ls) s = (
  ok true,
  record (at RefundStatus.complete (with_lines ls s)) { post_refunds = s.post_refunds + 1 },
)
after_revoking (ok false, ls) s = (ok false, at RefundStatus.revocation_error (with_lines ls s))
after_revoking (raised e, ls) s = (raised e, with_lines ls s)

-- `settle` with the lines' loop replaced by its outcome.
abbrev settle_by : Action (List RefundLine) Bool → Method Bool
settle_by m s =
    ((on_lines m >>= λ done.
    set_refund_status (if done then RefundStatus.complete else RefundStatus.revocation_error))
        >> finish true)
      s

settled_by :
    (q : Result Bool × List RefundLine) (t : RefundStatus) (s : State)
    → is_due t ≡ true
    → settle_by (λ _. q) (at t s) ≡ after_revoking q (at t s)
unfolding set_refund_status on_lines finish
settled_by (ok true, ls) RefundStatus.payment_refunded s d = refl
settled_by (ok true, ls) RefundStatus.revocation_error s d = refl
settled_by (ok false, ls) RefundStatus.payment_refunded s d = refl
settled_by (ok false, ls) RefundStatus.revocation_error s d = refl
settled_by (raised e, ls) RefundStatus.payment_refunded s d = refl
settled_by (raised e, ls) RefundStatus.revocation_error s d = refl
settled_by _ _ s d = cc

settled_at :
    (v : Services) (t : RefundStatus) (s : State)
    → is_due t ≡ true
    → approve v true (at t s)
      ≡ after_revoking
          (revoke_fulfillment_for_refund v.modules s.refund.total_credit_excl_tax s.refund.lines)
          (at t s)
unfolding approve settle revoke_lines on_lines set_refund_status finish
settled_at v RefundStatus.payment_refunded s d =
    settled_by
      (revoke_fulfillment_for_refund v.modules s.refund.total_credit_excl_tax s.refund.lines)
      RefundStatus.payment_refunded s d
settled_at v RefundStatus.revocation_error s d =
    settled_by
      (revoke_fulfillment_for_refund v.modules s.refund.total_credit_excl_tax s.refund.lines)
      RefundStatus.revocation_error s d
settled_at v _ s d = cc

-- A refund whose payment is refunded, or whose revocation failed before: `approve` completes it and
-- sends `post_refund` if `revoke_fulfillment_for_refund` returns `True`; notes a revocation error
-- and returns `False` if that returns `False`; and raises what the revocation raises. It saves the
-- lines and nothing else besides.
pub approve-due :
    (v : Services) (s : State)
    → is_due s.refund.status ≡ true
    → approve v true s
      ≡ after_revoking
          (revoke_fulfillment_for_refund v.modules s.refund.total_credit_excl_tax s.refund.lines)
          s
approve-due v s d = settled_at v s.refund.status s d
