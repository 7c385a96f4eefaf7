-- ===== src/Refund/Frame.antt =====
-- The lines of a refund keep everything but their statuses, whatever `approve` does.
use edx_ecommerce.Base.{
  ℕ, ap₂, ◌+◌, ◌≡◌, refl, ap, ◌∙◌, Bool, true, false, Option, none, some, List, [], ◌∷◌, ◌==◌,
  if◌then◌else◌, map, Bool-cases, inl, inr,
}
use edx_ecommerce.Base.Action.{Result, ok, raised, Action, Exc, pure, modify, ◌>>◌, or_raise}
use edx_ecommerce.Base.Keeps.{Keeps, Keeps->>, Keeps-try_except, keeping, Keeps-raise}
use edx_ecommerce.Refund.{
  same_line_status, line_pipeline, same_refund_status, refund_pipeline, set_status, RefundStatus,
  RefundLineStatus, RefundLine, RevokeModule, State, Services, for_lines, then_lines, revoke_by,
  revoke_line_fulfillment, get_fulfillment_modules_for_line, set_line_status, complete_line,
  revoke_fulfillment_for_refund, issue_credit, credit_source,
}
use edx_ecommerce.Refund.Approve.{
  approve, settle, pay_back, finish, revoke_lines, set_refund_status, on_lines,
}

-- A line without its status: what no method of a refund changes.
abbrev pub bare : RefundLine → RefundLine
bare l = record l { status = RefundLineStatus.opened }

abbrev pub SameLine : RefundLine → RefundLine → Type 0
SameLine k l = bare l ≡ bare k

saved-Same :
    (k l : RefundLine) (r : Result RefundLineStatus)
    → SameLine k l
    → SameLine k
        (elim r as (λ x. Result (Unit {0}) × RefundLine) [
          | ok s ↦ (ok tt, record l { status = s })
          | raised e ↦ (raised e, l)
        ]).1
saved-Same k l (ok s) h = h
saved-Same k l (raised e) h = h

set_line_status-Same :
    (k : RefundLine) (new : RefundLineStatus) → Keeps (SameLine k) (set_line_status new)
unfolding set_line_status
set_line_status-Same k new l h =
    saved-Same k l (set_status same_line_status line_pipeline l.status new) h

complete_line-Same : (k : RefundLine) (b : Bool) → Keeps (SameLine k) (complete_line b)
unfolding complete_line
complete_line-Same k b =
    Keeps->> (SameLine k) (set_line_status RefundLineStatus.complete) (pure b)
      (set_line_status-Same k RefundLineStatus.complete) (λ l h. h)

revoke_answer-Same :
    (k : RefundLine) (us : List RevokeModule)
    → ((b : Bool) → Keeps (SameLine k) (revoke_by us b))
    → (b : Bool) (r : Result Bool) (l : RefundLine) → SameLine k l
    → SameLine k
        (elim r as (λ x. Result Bool × RefundLine) [
          | ok done ↦
              (set_line_status
                    (if done then RefundLineStatus.complete else RefundLineStatus.revocation_error)
                  >> revoke_by us (if done then b else false))
                l
          | raised e ↦ (raised e, l)
        ]).1
revoke_answer-Same k us ih b (ok done) =
    let t = if done then RefundLineStatus.complete else RefundLineStatus.revocation_error in
    let c = if done then b else false in
    Keeps->> (SameLine k) (set_line_status t) (revoke_by us c) (set_line_status-Same k t) (ih c)
revoke_answer-Same k us ih b (raised e) = λ l h. h

revoke_by-Same :
    (k : RefundLine) (us : List RevokeModule) (b : Bool) → Keeps (SameLine k) (revoke_by us b)
unfolding revoke_by
revoke_by-Same k [] b l h = h
revoke_by-Same k (m ∷ us) b l h =
    revoke_answer-Same k us (revoke_by-Same k us) b (m.revoke_line l.order_line) l h

then_lines-Same :
    (q : Result Bool × RefundLine) (l : RefundLine) (rest : Bool → Result Bool × List RefundLine)
    (ls : List RefundLine)
    → SameLine l q.1
    → ((b : Bool) → map bare (rest b).1 ≡ map bare ls)
    → map bare (then_lines q rest ls).1 ≡ map bare (l ∷ ls)
then_lines-Same (ok b, l') l rest ls h k = ap₂ ◌∷◌ h (k b)
then_lines-Same (raised e, l') l rest ls h k = ap (λ x. x ∷ map bare ls) h

for_lines-Same :
    (body : Bool → Action RefundLine Bool)
    → ((k : RefundLine) (b : Bool) → Keeps (SameLine k) (body b))
    → (b : Bool) (ls : List RefundLine) → map bare (for_lines body b ls).1 ≡ map bare ls
unfolding for_lines
for_lines-Same body keep_line b [] = refl
for_lines-Same body keep_line b (l ∷ ls) =
    then_lines-Same (body b l) l _ ls (keep_line l b l refl)
      (λ b'. for_lines-Same body keep_line b' ls)

revoke_fulfillment-Same :
    (ms : List RevokeModule) (total : ℕ) (ls : List RefundLine)
    → map bare (revoke_fulfillment_for_refund ms total ls).1 ≡ map bare ls
unfolding revoke_fulfillment_for_refund revoke_line_fulfillment
revoke_fulfillment-Same ms total ls = elim (Bool-cases (total == 0)) [
  | inl free ↦
      rw (free, revoke_fulfillment_for_refund)
        (for_lines-Same complete_line complete_line-Same true ls)
  | inr credit ↦
      rw (credit, revoke_fulfillment_for_refund)
        (for_lines-Same (revoke_line_fulfillment ms)
          (λ k b l h. revoke_by-Same k (get_fulfillment_modules_for_line ms l.order_line) b l h)
          true ls)
]

-- The refund has the lines `xs`, whatever their statuses.
abbrev pub HasLines : List RefundLine → State → Type 0
HasLines xs s = map bare s.refund.lines ≡ xs

set_status_after :
    (xs : List RefundLine) (s : State) (r : Result RefundStatus)
    → HasLines xs s
    → HasLines xs
        (elim r as (λ x. Result (Unit {0}) × State) [
          | ok t ↦ (ok tt, record s { refund = record (s.refund) { status = t } })
          | raised e ↦ (raised e, s)
        ]).1
set_status_after xs s (ok t) h = h
set_status_after xs s (raised e) h = h

module _ (xs : List RefundLine) where
  set_refund_status-HasLines : (t : RefundStatus) → Keeps (HasLines xs) (set_refund_status t)
  unfolding set_refund_status
  set_refund_status-HasLines t s h =
      set_status_after xs s (set_status same_refund_status refund_pipeline s.refund.status t) h

  on_lines-HasLines :
      {A : Type 0} (m : Action (List RefundLine) A)
      → ((ls : List RefundLine) → map bare (m ls).1 ≡ map bare ls)
      → Keeps (HasLines xs) (on_lines m)
  unfolding on_lines
  on_lines-HasLines m same s h = same s.refund.lines ∙ h

  source-HasLines : (o : Option ℕ) (e : Exc) → Keeps (HasLines xs) (or_raise o e)
  source-HasLines none e s h = h
  source-HasLines (some x) e s h = h

  credit_source-HasLines : (v : Services) → Keeps (HasLines xs) (credit_source v)
  unfolding credit_source
  credit_source-HasLines v = search (keeping, source-HasLines)

  issue_credit-HasLines : (v : Services) → Keeps (HasLines xs) (issue_credit v)
  unfolding issue_credit
  issue_credit-HasLines v =
      search
        (keeping, Keeps-try_except, credit_source-HasLines, Keeps-raise (Unit {0}) (HasLines xs))

  pay_back-HasLines : (v : Services) → Keeps (HasLines xs) (pay_back v)
  unfolding pay_back
  pay_back-HasLines v = search (
    keeping,
    Keeps-try_except,
    issue_credit-HasLines,
    set_refund_status-HasLines,
    Keeps-raise Bool (HasLines xs),
  )

  revoke_lines-HasLines : (v : Services) → Keeps (HasLines xs) (revoke_lines v)
  unfolding revoke_lines
  revoke_lines-HasLines v =
      search (keeping, set_refund_status-HasLines, on_lines-HasLines, revoke_fulfillment-Same)

  post_refund-HasLines :
      Keeps (HasLines xs) (modify λ (s : State). record s { post_refunds = s.post_refunds + 1 })
  post_refund-HasLines s h = h

  finish-HasLines : (revoke : Bool) → Keeps (HasLines xs) (finish revoke)
  unfolding finish
  finish-HasLines revoke =
      search
        (
          keeping,
          set_refund_status-HasLines,
          on_lines-HasLines,
          for_lines-Same complete_line complete_line-Same true,
          post_refund-HasLines,
        )
        depth 9

  settle-HasLines : (v : Services) (revoke : Bool) → Keeps (HasLines xs) (settle v revoke)
  unfolding settle
  settle-HasLines v revoke = search (keeping, revoke_lines-HasLines, finish-HasLines)

  -- No call of `approve` changes a line but for its status.
  pub approve-HasLines : (v : Services) (revoke : Bool) → Keeps (HasLines xs) (approve v revoke)
  unfolding approve
  approve-HasLines v revoke = search (keeping, pay_back-HasLines, settle-HasLines) depth 9
