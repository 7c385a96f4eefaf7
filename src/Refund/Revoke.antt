-- ===== src/Refund/Revoke.antt =====
-- `revoke_fulfillment_for_refund` and `get_fulfillment_modules_for_line` of
-- ecommerce/extensions/fulfillment/api.py: every function takes the lines of the refund and returns
-- them as they are saved when the loop ends or raises.
use edx_ecommerce.Base.{ℕ, Bool, true, false, List, [], ◌∷◌, ◌==◌, if◌then◌else◌, keep}
use edx_ecommerce.Base.Action.{Result, ok, raised, pure, call, ◌>>=◌, ◌>>◌, Action}
use edx_ecommerce.Refund.Status.{
  RefundLineStatus, revocation_error, complete, same_line_status, line_pipeline, available_statuses,
  set_status,
}
use edx_ecommerce.Refund.Rows.{OrderLine, RefundLine, RevokeModule}

-- `refund_line.set_status(…)`
unfoldable pub set_line_status : RefundLineStatus → Action RefundLine (Unit {0})
unfolding set_status available_statuses
set_line_status new l = elim (set_status same_line_status line_pipeline l.status new) [
  | ok s ↦ (ok tt, record l { status = s })
  | raised e ↦ (raised e, l)
]

unfoldable pub get_fulfillment_modules_for_line : List RevokeModule → OrderLine → List RevokeModule
get_fulfillment_modules_for_line ms l = keep (λ m. m.supports_line l) ms

-- The inner loop, over the modules that support the line; it threads `succeeded`.
unfoldable pub revoke_by : List RevokeModule → Bool → Action RefundLine Bool
unfolding set_line_status
revoke_by [] succeeded l = (ok succeeded, l)
revoke_by (m ∷ ms) succeeded l =
    (do
      done ← call (m.revoke_line l.order_line)
      set_line_status (if done then complete else revocation_error)
      revoke_by ms (if done then succeeded else false))
      l

-- One round of a loop over the lines: a raise leaves the later lines as they are.
abbrev pub then_lines :
    Result Bool × RefundLine
    → (Bool → Result Bool × List RefundLine)
    → List RefundLine
    → Result Bool × List RefundLine
then_lines (ok b, l) rest ls = ((rest b).0, l ∷ (rest b).1)
then_lines (raised e, l) rest ls = (raised e, l ∷ ls)

-- A loop `for refund_line in refund.lines.all()` that threads a flag.
unfoldable pub for_lines : (Bool → Action RefundLine Bool) → Bool → Action (List RefundLine) Bool
for_lines body b [] = (ok b, [])
for_lines body b (l ∷ ls) = then_lines (body b l) (λ b'. for_lines body b' ls) ls

unfoldable pub complete_line : Bool → Action RefundLine Bool
unfolding set_line_status
complete_line succeeded = set_line_status complete >> pure succeeded

unfoldable pub revoke_line_fulfillment : List RevokeModule → Bool → Action RefundLine Bool
unfolding revoke_by get_fulfillment_modules_for_line
revoke_line_fulfillment ms succeeded l =
    revoke_by (get_fulfillment_modules_for_line ms l.order_line) succeeded l

unfoldable pub revoke_fulfillment_for_refund : List RevokeModule → ℕ → Action (List RefundLine) Bool
unfolding for_lines complete_line revoke_line_fulfillment
revoke_fulfillment_for_refund ms total =
    if total == 0 then for_lines complete_line true else for_lines (revoke_line_fulfillment ms) true
