-- ===== src/Refund/History.antt =====
-- Sequences of calls on one refund.
use edx_ecommerce.Base.{Bool, List, [], ◌∷◌}
use edx_ecommerce.Refund.{State, Services}
use edx_ecommerce.Refund.Approve.{approve, deny}
use edx_ecommerce.Refund.Credited.{IsCredited, approve-IsCredited, deny-IsCredited}

-- The calls that a refund's dashboard and API views make, each with what its services answer.
pub data Call : Type 0 where
  approve_call : Services → (revoke_fulfillment : Bool) → Call
  deny_call : Call

pub run : List Call → State → State
run [] s = s
run (approve_call v revoke ∷ cs) s = run cs (approve v revoke s).1
run (deny_call ∷ cs) s = run cs (deny s).1

-- Whatever calls are made, in whatever order, whatever the services answer or raise: a refund that
-- has at most one payment event, for its whole credit, and only once it is paid, stays so; and what
-- was refunded to the source is what the events say.
pub run-IsCredited : (cs : List Call) (s : State) → IsCredited s → IsCredited (run cs s)
unfolding run
run-IsCredited [] s h = h
run-IsCredited (approve_call v revoke ∷ cs) s h =
    run-IsCredited cs _ (approve-IsCredited v revoke s h)
run-IsCredited (deny_call ∷ cs) s h = run-IsCredited cs _ (deny-IsCredited s h)
