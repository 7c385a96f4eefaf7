-- ===== src/Fulfillment/Refunds.antt =====
-- Refunds of order lines through the modules of FULFILLMENT_MODULES: the `revoke_line` methods of
-- ecommerce/extensions/fulfillment/modules.py as `Refund.approve` meets them.
use edx_ecommerce.Base.{
  ℕ, ◌≡◌, ◌≢◌, refl, ap, sym, ◌∙◌, ◌+◌, ◌==◌, ◌&&◌, ◌||◌, if◌then◌else◌, Bool, true, false, List,
  [], ◌∷◌, is_some, all, All, arith, map,
}
use edx_ecommerce.Base.Action.{Result, ok, raised, not_implemented}
use edx_ecommerce.Refund.{
  RefundStatus, OrderLine, RefundLine, RevokeModule, State, revoke_fulfillment_for_refund,
  revoke_line_fulfillment, get_fulfillment_modules_for_line, for_lines, then_lines, revoke_by,
}
use edx_ecommerce.Refund.Approve.{approve}
use edx_ecommerce.Refund.Settlement.{is_due, approve-due, after_revoking}
use edx_ecommerce.Refund.Lines.{
  IsServed, is_pending, revoked, revoke_fulfillment-served, with_credit,
}
use edx_ecommerce.Fulfillment.{
  ProductClass, Product, Line, Services, Module, revoke_line, revoke_modules, revoke_module,
  revocation_answer, or_false, is_executive_education_2u_product, is_seat_product,
}

-- A seat with a course key, on a refund line that can still change.
abbrev pub IsSeat : (OrderLine → Line) → RefundLine → Type 0
IsSeat line_of l =
    let p = (line_of l.order_line).product in
    (is_seat_product p ≡ true)
    × (is_executive_education_2u_product p ≡ false)
    × (is_some p.course_key ≡ true)
    × (is_pending l.status ≡ true)

abbrev pub is_answer : Result ℕ → ℕ → Bool
is_answer (ok code) n = code == n
is_answer (raised e) n = false

abbrev pub is_true : Result Bool → Bool
is_true (ok b) = b
is_true (raised e) = false

-- The LMS answers the revocation of the enrollment with 200, or with 400 and the message that the
-- user is enrolled in another mode.
abbrev pub unenrolls : Services → Line → Bool
unenrolls w l =
    is_answer (w.revoke_enrollment l) 200
    || is_answer (w.revoke_enrollment l) 400 && is_true (w.is_mode_mismatch l)

revocation_answer-codes :
    (r : Result ℕ) (mismatch : Result Bool)
    → or_false (revocation_answer r mismatch)
      ≡ ok (is_answer r 200 || is_answer r 400 && is_true mismatch)
revocation_answer-codes (ok code) (ok b) = ground arith
revocation_answer-codes (ok code) (raised e) = ground arith
revocation_answer-codes (raised x) mismatch = refl

seat_modules :
    (w : Services) (line_of : OrderLine → Line) (o : OrderLine)
    → is_seat_product (line_of o).product ≡ true
    → is_executive_education_2u_product (line_of o).product ≡ false
    → get_fulfillment_modules_for_line (revoke_modules w line_of) o
      ≡ revoke_module w line_of Module.enrollment ∷ []
unfolding get_fulfillment_modules_for_line revoke_modules
seat_modules w line_of o a b = ground (arith)

seat-IsServed :
    (w : Services) (line_of : OrderLine → Line) (l : RefundLine)
    → IsSeat line_of l
    → IsServed (revoke_modules w line_of) (λ o. unenrolls w (line_of o)) l
unfolding revoke_line
seat-IsServed w line_of l (a, b, c, d) = record {
  module_class = revoke_module w line_of Module.enrollment;
  only = seat_modules w line_of l.order_line a b;
  answers = rw c (
      revocation_answer-codes (w.revoke_enrollment (line_of l.order_line))
        (w.is_mode_mismatch (line_of l.order_line)));
  pending = d;
}

by_outcome :
    (done : Bool) (ls : List RefundLine) (s : State)
    → after_revoking (ok done, ls) s ≡ (
      ok done,
      record s {
        refund = record (s.refund) {
          status = if done then RefundStatus.complete else RefundStatus.revocation_error;
          lines = ls;
        };
        post_refunds = s.post_refunds + (if done then 1 else 0);
      },
    )
by_outcome true ls s = refl
by_outcome false ls s = ground arith

-- With the modules of the setting, a refund with a credit whose lines are pending and are for seats
-- with course keys, but not for executive education: the revocation succeeds exactly when the LMS
-- answers every line with 200, or with 400 and a mismatch of the modes. Each line becomes complete
-- where it answers so, and gets a revocation error where it does not, and where asking it raises.
pub revoke_fulfillment-seats :
    (w : Services) (line_of : OrderLine → Line) (total : ℕ) (ls : List RefundLine)
    → total ≢ 0
    → All (IsSeat line_of) ls
    → revoke_fulfillment_for_refund (revoke_modules w line_of) total ls ≡ (
      ok (all (λ l. unenrolls w (line_of l.order_line)) ls),
      map (revoked (λ o. unenrolls w (line_of o))) ls,
    )
revoke_fulfillment-seats w line_of total ls nz h =
    revoke_fulfillment-served (revoke_modules w line_of) (λ o. unenrolls w (line_of o)) total ls nz
      (served ls h)
  where
    served :
        (ls : List RefundLine)
        → All (IsSeat line_of) ls
        → All (IsServed (revoke_modules w line_of) (λ o. unenrolls w (line_of o))) ls
    served [] h = tt
    served (l ∷ ls) (h, hs) = (seat-IsServed w line_of l h, served ls hs)

-- With the modules of the setting, a refund with a credit whose payment is refunded or whose
-- revocation failed before, and whose lines are pending and are for seats with course keys, but not
-- for executive education: if the LMS answers every line with 200, or with 400 and a mismatch of
-- the modes, then `approve` completes the refund, sends `post_refund` and returns `True`; if not,
-- it leaves the refund in revocation error and returns `False`. In both cases each line has the
-- status of its own answer, and nothing else changes.
pub approve-seats :
    (v : edx_ecommerce.Refund.Services) (w : Services) (line_of : OrderLine → Line) (s : State)
    → v.modules ≡ revoke_modules w line_of
    → is_due s.refund.status ≡ true
    → s.refund.total_credit_excl_tax ≢ 0
    → All (IsSeat line_of) s.refund.lines
    → approve v true s ≡ (
        let done = all (λ (l : RefundLine). unenrolls w (line_of l.order_line)) s.refund.lines in
        (
          ok done,
          record s {
            refund = record (s.refund) {
              status = if done then RefundStatus.complete else RefundStatus.revocation_error;
              lines = map (revoked (λ o. unenrolls w (line_of o))) s.refund.lines;
            };
            post_refunds = s.post_refunds + (if done then 1 else 0);
          },
        ))
approve-seats v w line_of s modules due nz seats =
    let total = s.refund.total_credit_excl_tax in
    let done = all (λ (l : RefundLine). unenrolls w (line_of l.order_line)) s.refund.lines in
    approve-due v s due
    ∙ ap (λ ms. after_revoking (revoke_fulfillment_for_refund ms total s.refund.lines) s) modules
    ∙ ap (λ q. after_revoking q s)
        (revoke_fulfillment-seats w line_of total s.refund.lines nz seats)
    ∙ by_outcome done (map (revoked (λ o. unenrolls w (line_of o))) s.refund.lines) s

-- The products whose module has no `revoke_line` of its own: codes, and executive education.
abbrev pub is_irrevocable : Product → Bool
is_irrevocable p = elim p.product_class [
  | ProductClass.coupon ↦ true
  | ProductClass.enrollment_code ↦ true
  | ProductClass.course_entitlement ↦ is_executive_education_2u_product p
  | _ ↦ false
]

irrevocable_line :
    (w : Services) (line_of : OrderLine → Line) (b : Bool) (l : RefundLine)
    → is_irrevocable (line_of l.order_line).product ≡ true
    → revoke_line_fulfillment (revoke_modules w line_of) b l ≡ (raised not_implemented, l)
unfolding revoke_line_fulfillment get_fulfillment_modules_for_line revoke_modules revoke_by
irrevocable_line w line_of b l h = ground arith

irrevocable_lines :
    (w : Services) (line_of : OrderLine → Line) (l : RefundLine) (ls : List RefundLine)
    → is_irrevocable (line_of l.order_line).product ≡ true
    → for_lines (revoke_line_fulfillment (revoke_modules w line_of)) true (l ∷ ls)
      ≡ (raised not_implemented, l ∷ ls)
unfolding for_lines
irrevocable_lines w line_of l ls h =
    let round = revoke_line_fulfillment (revoke_modules w line_of) in
    ap (λ q. then_lines q (λ b. for_lines round b ls) ls) (irrevocable_line w line_of true l h)

-- With the modules of the setting, a due refund with a credit whose first line is a coupon, an
-- enrollment code or an executive education entitlement: `approve` raises `NotImplementedError` and
-- nothing is saved, so the refund stays due however often it is approved.
pub approve-irrevocable :
    (v : edx_ecommerce.Refund.Services) (w : Services) (line_of : OrderLine → Line) (s : State)
    (l : RefundLine) (ls : List RefundLine)
    → v.modules ≡ revoke_modules w line_of
    → is_due s.refund.status ≡ true
    → s.refund.total_credit_excl_tax ≢ 0
    → s.refund.lines ≡ l ∷ ls
    → is_irrevocable (line_of l.order_line).product ≡ true
    → approve v true s ≡ (raised not_implemented, s)
approve-irrevocable v w line_of s l ls modules due nz lines h =
    let round = revoke_line_fulfillment (revoke_modules w line_of) in
    let total = s.refund.total_credit_excl_tax in
    approve-due v s due
    ∙ ap (λ q. after_revoking q s)
        (ap (λ ms. revoke_fulfillment_for_refund ms total s.refund.lines) modules
          ∙ with_credit (revoke_modules w line_of) total s.refund.lines nz
          ∙ ap (for_lines round true) lines
          ∙ irrevocable_lines w line_of l ls h
          ∙ ap (λ xs. (raised not_implemented, xs)) (sym lines))
