-- ===== src/Refund/Denial.antt =====
-- What `deny` does, and that a refund that is complete or denied stays as it is.
use edx_ecommerce.Base.{
  and_rotate, and_true, ◌≡◌, refl, ap, ◌∙◌, Bool, true, false, ◌&&◌, List, [], ◌∷◌, if◌then◌else◌,
  all, map,
}
use edx_ecommerce.Base.Action.{Result, ok}
use edx_ecommerce.Refund.{
  RefundStatus, RefundLineStatus, RefundLine, State, Services, for_lines, then_lines,
}
use edx_ecommerce.Refund.Payment.{at}
use edx_ecommerce.Refund.Settlement.{with_lines}
use edx_ecommerce.Refund.Approve.{approve, deny, deny_line}
use edx_ecommerce.Refund.Lines.{line_at}

abbrev pub is_open_line : RefundLine → Bool
is_open_line l = is_opened l.status
  where
    is_opened : RefundLineStatus → Bool
    is_opened RefundLineStatus.opened = true
    is_opened _ = false

abbrev pub denied_line : RefundLine → RefundLine
denied_line l = if is_open_line l then line_at RefundLineStatus.denied l else l

line_denied_at :
    (b : Bool) (t : RefundLineStatus) (l : RefundLine)
    → deny_line b (line_at t l) ≡ (ok (is_open_line (line_at t l) && b), denied_line (line_at t l))
unfolding deny_line
line_denied_at b RefundLineStatus.opened l = refl
line_denied_at b RefundLineStatus.revocation_error l = refl
line_denied_at b RefundLineStatus.denied l = refl
line_denied_at b RefundLineStatus.complete l = refl

lines_denied :
    (b : Bool) (ls : List RefundLine)
    → for_lines deny_line b ls ≡ (ok (all is_open_line ls && b), map denied_line ls)
unfolding for_lines
lines_denied b [] = refl
lines_denied b (l ∷ ls) =
    ap (λ q. then_lines q (λ b'. for_lines deny_line b' ls) ls) (line_denied_at b l.status l)
    ∙ ap (λ q. (q.0, denied_line l ∷ q.1)) (lines_denied (is_open_line l && b) ls)
    ∙ ap (λ c. (ok c, denied_line l ∷ map denied_line ls))
        (and_rotate (all is_open_line ls) (is_open_line l) b)

-- The result and the state of `deny`, for each status of the refund.
abbrev pub after_denial : RefundStatus → State → Result Bool × State
after_denial RefundStatus.opened s = (
  ok (all is_open_line s.refund.lines),
  at RefundStatus.denied (with_lines (map denied_line s.refund.lines) s),
)
after_denial RefundStatus.denied s = (ok true, s)
after_denial _ s = (ok false, s)

denied_at : (t : RefundStatus) (s : State) → deny (at t s) ≡ after_denial t (at t s)
unfolding deny
denied_at RefundStatus.opened s =
    ap (λ q. (q.0, at RefundStatus.denied (with_lines q.1 s)))
      (lines_denied true s.refund.lines
        ∙ ap (λ c. (ok c, map denied_line s.refund.lines))
            (and_true (all is_open_line s.refund.lines)))
denied_at _ s = refl

-- `deny` on every status: an open refund is denied with its open lines, and the result says whether
-- all lines were open, a line that was not keeps its status; a denied refund is left alone and gives
-- `True`; any other is left alone and gives `False`. It never raises.
pub deny_lem : (s : State) → deny s ≡ after_denial s.refund.status s
deny_lem s = denied_at s.refund.status s

-- A complete or denied refund.
abbrev pub is_closed : RefundStatus → Bool
is_closed RefundStatus.complete = true
is_closed RefundStatus.denied = true
is_closed _ = false

abbrev pub is_complete : RefundStatus → Bool
is_complete RefundStatus.complete = true
is_complete _ = false

closed_at :
    (v : Services) (revoke : Bool) (t : RefundStatus) (s : State)
    → is_closed t ≡ true
    → approve v revoke (at t s) ≡ (ok (is_complete t), at t s)
unfolding approve
closed_at v revoke RefundStatus.complete s h = refl
closed_at v revoke RefundStatus.denied s h = refl
closed_at v revoke _ s h = cc

-- `approve` on a complete or denied refund changes nothing and calls nothing: it gives `True` for
-- the complete one and `False` for the denied one.
pub approve-closed :
    (v : Services) (revoke : Bool) (s : State)
    → is_closed s.refund.status ≡ true
    → approve v revoke s ≡ (ok (is_complete s.refund.status), s)
approve-closed v revoke s h = closed_at v revoke s.refund.status s h
