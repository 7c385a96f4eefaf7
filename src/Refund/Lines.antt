-- ===== src/Refund/Lines.antt =====
-- What the revocation of the lines does, line by line.
use edx_ecommerce.Base.{
  and_rotate, and_true, ℕ, ==-false_of_ne, ◌≡◌, ◌≢◌, refl, ap, ◌∙◌, Bool, true, false, ◌&&◌, List,
  [], ◌∷◌, if◌then◌else◌, all, All, map,
}
use edx_ecommerce.Base.Action.{Result, ok}
use edx_ecommerce.Refund.{
  RefundLineStatus, OrderLine, RefundLine, RevokeModule, revoke_fulfillment_for_refund,
  revoke_line_fulfillment, revoke_by, for_lines, then_lines, get_fulfillment_modules_for_line,
}

abbrev pub line_at : RefundLineStatus → RefundLine → RefundLine
line_at t l = record l { status = t }

abbrev pub is_pending : RefundLineStatus → Bool
is_pending RefundLineStatus.opened = true
is_pending RefundLineStatus.revocation_error = true
is_pending _ = false

-- The line is supported by one module alone, which answers `answer`, and can still change.
pub record IsServed (ms : List RevokeModule) (answer : OrderLine → Bool) (l : RefundLine)
    : Type 0 where
  pub module_class : RevokeModule
  pub only : get_fulfillment_modules_for_line ms l.order_line ≡ module_class ∷ []
  pub answers : module_class.revoke_line l.order_line ≡ ok (answer l.order_line)
  pub pending : is_pending l.status ≡ true

abbrev pub revoked : (OrderLine → Bool) → RefundLine → RefundLine
revoked answer l =
    line_at
      (if answer l.order_line then RefundLineStatus.complete else RefundLineStatus.revocation_error)
      l

abbrev pub answering : Result Bool → RevokeModule → RevokeModule
answering r m = record m { revoke_line = λ _. r }

revoked_at :
    (m : RevokeModule) (b a : Bool) (t : RefundLineStatus) (l : RefundLine)
    → is_pending t ≡ true
    → revoke_by (answering (ok a) m ∷ []) b (line_at t l) ≡ (
      ok (a && b),
      line_at (if a then RefundLineStatus.complete else RefundLineStatus.revocation_error) l,
    )
unfolding revoke_by
revoked_at m b true RefundLineStatus.opened l p = refl
revoked_at m b true RefundLineStatus.revocation_error l p = refl
revoked_at m b false RefundLineStatus.opened l p = refl
revoked_at m b false RefundLineStatus.revocation_error l p = refl
revoked_at m b _ _ l p = cc

by_answer :
    (m : RevokeModule) (b : Bool) (l : RefundLine)
    → revoke_by (m ∷ []) b l ≡ revoke_by (answering (m.revoke_line l.order_line) m ∷ []) b l
unfolding revoke_by
by_answer m b l = refl

served_line :
    (ms : List RevokeModule) (answer : OrderLine → Bool) (b : Bool) (l : RefundLine)
    → IsServed ms answer l
    → revoke_line_fulfillment ms b l ≡ (ok (answer l.order_line && b), revoked answer l)
unfolding revoke_line_fulfillment
served_line ms answer b l h =
    ap (λ us. revoke_by us b l) h.only
    ∙ by_answer h.module_class b l
    ∙ ap (λ r. revoke_by (answering r h.module_class ∷ []) b l) h.answers
    ∙ revoked_at h.module_class b (answer l.order_line) l.status l h.pending

-- A refund with a credit takes the second loop.
pub with_credit :
    (ms : List RevokeModule) (total : ℕ) (ls : List RefundLine)
    → total ≢ 0
    → revoke_fulfillment_for_refund ms total ls ≡ for_lines (revoke_line_fulfillment ms) true ls
unfolding revoke_fulfillment_for_refund
with_credit ms total ls nz = rw (==-false_of_ne total 0 nz) refl

served_lines :
    (ms : List RevokeModule) (answer : OrderLine → Bool) (b : Bool) (ls : List RefundLine)
    → All (IsServed ms answer) ls
    → for_lines (revoke_line_fulfillment ms) b ls
      ≡ (ok (all (λ l. answer l.order_line) ls && b), map (revoked answer) ls)
unfolding for_lines
served_lines ms answer b [] h = refl
served_lines ms answer b (l ∷ ls) h =
    ap (λ q. then_lines q (λ b'. for_lines (revoke_line_fulfillment ms) b' ls) ls)
      (served_line ms answer b l h.0)
    ∙ ap (λ q. (q.0, revoked answer l ∷ q.1))
        (served_lines ms answer (answer l.order_line && b) ls h.1)
    ∙ ap (λ c. (ok c, revoked answer l ∷ map (revoked answer) ls))
        (and_rotate (all (λ l. answer l.order_line) ls) (answer l.order_line) b)

-- The revocation of a refund with a credit, where one module serves each line: it succeeds exactly
-- when every module's answer is `True`, and each line's status says its own answer.
pub revoke_fulfillment-served :
    (ms : List RevokeModule) (answer : OrderLine → Bool) (total : ℕ) (ls : List RefundLine)
    → total ≢ 0
    → All (IsServed ms answer) ls
    → revoke_fulfillment_for_refund ms total ls
      ≡ (ok (all (λ l. answer l.order_line) ls), map (revoked answer) ls)
revoke_fulfillment-served ms answer total ls nz h =
    with_credit ms total ls nz
    ∙ served_lines ms answer true ls h
    ∙ ap (λ c. (ok c, map (revoked answer) ls)) (and_true (all (λ l. answer l.order_line) ls))
