-- ===== src/Refund/Credited.antt =====
-- Payments are credited once: an invariant of every sequence of calls of `approve` and `deny`.
use edx_ecommerce.Base.{
  ℕ, ◌+◌, Option, none, some, ◌≡◌, refl, Bool, true, false, List, [], ◌∷◌, ◌≤◌, arith,
  if◌then◌else◌, length, All,
}
use edx_ecommerce.Base.Action.{
  Action, pure, ◌>>◌, modify, Result, ok, raised, payment_error, attribute_error,
}
use edx_ecommerce.Base.Keeps.{Keeps, Keeps->>, keeping}
use edx_ecommerce.Refund.{
  RefundStatus, RefundLine, PaymentEvent, State, Services, Method,
  issue_credit_for_enterprise_offer,
}
use edx_ecommerce.Refund.Payment.{
  at, paid_from, is_unpaid, credited, after_answer, pay_back-source, pay_back-no_source,
}
use edx_ecommerce.Refund.Approve.{
  approve, deny, settle, pay_back, finish, revoke_lines, set_refund_status, on_lines,
}

-- The credit has been issued.
abbrev pub is_paid : RefundStatus → Bool
is_paid RefundStatus.payment_refunded = true
is_paid RefundStatus.revocation_error = true
is_paid RefundStatus.complete = true
is_paid _ = false

pub record IsCredited (s : State) : Type 0 where
  pub count : length s.events ≤ (if is_paid s.refund.status then 1 else 0)
  pub amounts : All (λ (e : PaymentEvent). e.amount ≡ s.refund.total_credit_excl_tax) s.events
  pub booked : s.source_refunds ≡ s.events

-- The invariant once the credit is issued.
abbrev pub IsSettled : State → Type 0
IsSettled s = (is_paid s.refund.status ≡ true) × IsCredited s

set_status_at-IsSettled :
    (t new : RefundStatus) (s : State)
    → IsSettled (at t s)
    → IsSettled (set_refund_status new (at t s)).1
unfolding set_refund_status
set_status_at-IsSettled RefundStatus.payment_refunded RefundStatus.complete s h = ground arith
set_status_at-IsSettled RefundStatus.payment_refunded _ s h = ground arith
set_status_at-IsSettled RefundStatus.revocation_error RefundStatus.complete s h = ground arith
set_status_at-IsSettled RefundStatus.revocation_error _ s h = ground arith
set_status_at-IsSettled RefundStatus.complete RefundStatus.complete s h = ground arith
set_status_at-IsSettled RefundStatus.complete _ s h = ground arith
set_status_at-IsSettled _ _ s h = cc

set_status-IsSettled : (new : RefundStatus) → Keeps IsSettled (set_refund_status new)
set_status-IsSettled new s = set_status_at-IsSettled s.refund.status new s

on_lines-IsSettled : {A : Type 0} (m : Action (List RefundLine) A) → Keeps IsSettled (on_lines m)
unfolding on_lines
on_lines-IsSettled m s h =
    (h.0, record { count = h.1.count; amounts = h.1.amounts; booked = h.1.booked })

post_refund-IsSettled :
    Keeps IsSettled (modify λ (s : State). record s { post_refunds = s.post_refunds + 1 })
post_refund-IsSettled s h =
    (h.0, record { count = h.1.count; amounts = h.1.amounts; booked = h.1.booked })

ruleset settled = (keeping, set_status-IsSettled, on_lines-IsSettled, post_refund-IsSettled)

revoke_lines-IsSettled : (v : Services) → Keeps IsSettled (revoke_lines v)
unfolding revoke_lines
revoke_lines-IsSettled v = search settled

finish-IsSettled : (revoke : Bool) → Keeps IsSettled (finish revoke)
unfolding finish
finish-IsSettled revoke = search settled depth 9

settle-IsSettled : (v : Services) (revoke : Bool) → Keeps IsSettled (settle v revoke)
unfolding settle
settle-IsSettled v revoke = search (settled, revoke_lines-IsSettled, finish-IsSettled)

offers-IsSettled : (v : Services) → Keeps IsSettled (issue_credit_for_enterprise_offer v)
unfolding issue_credit_for_enterprise_offer
offers-IsSettled v s h =
    (h.0, record { count = h.1.count; amounts = h.1.amounts; booked = h.1.booked })

pay-IsSettled :
    (v : Services) (revoke : Bool)
    → Keeps IsSettled (issue_credit_for_enterprise_offer v >> settle v revoke)
pay-IsSettled v revoke =
    Keeps->> IsSettled (issue_credit_for_enterprise_offer v) (settle v revoke) (offers-IsSettled v)
      (settle-IsSettled v revoke)

-- What the payment step establishes, by how it ended.
abbrev IsPaidBack : Result Bool × State → Type 0
IsPaidBack q = IsCredited q.1 × (q.0 ≡ ok true → IsSettled q.1)

credited-IsSettled :
    (ref : ℕ) (s : State) → s.events ≡ [] → IsCredited s → IsSettled (credited ref s)
credited-IsSettled ref s e h = (
  refl,
  record { count = rw e (omega arith); amounts = rw e (refl, tt); booked = rw (h.booked) refl },
)

at-IsCredited : (t : RefundStatus) (s : State) → s.events ≡ [] → IsCredited s → IsCredited (at t s)
at-IsCredited t s e h = record {
  count = rw e (omega arith);
  amounts = h.amounts;
  booked = h.booked;
}

after_answer-IsPaidBack :
    (r : Result ℕ) (s : State) → s.events ≡ [] → IsCredited s → IsPaidBack (after_answer r s)
after_answer-IsPaidBack (ok ref) s e h = let k = credited-IsSettled ref s e h in (k.1, λ _. k)
after_answer-IsPaidBack (raised payment_error) s e h =
    (at-IsCredited RefundStatus.payment_refund_error s e h, λ p. cc)
after_answer-IsPaidBack (raised attribute_error) s e h =
    let k = at-IsCredited RefundStatus.payment_refunded s e h in (k, λ _. (refl, k))
after_answer-IsPaidBack (raised _) s e h = (h, λ p. cc)

no_events :
    (t : RefundStatus) (es : List PaymentEvent)
    → is_unpaid t ≡ true
    → length es ≤ (if is_paid t then 1 else 0)
    → es ≡ []
no_events RefundStatus.opened [] u h = refl
no_events RefundStatus.payment_refund_error [] u h = refl
no_events t [] u h = refl
no_events RefundStatus.opened (e ∷ es) u h = absurd (omega arith)
no_events RefundStatus.payment_refund_error (e ∷ es) u h = absurd (omega arith)
no_events _ (e ∷ es) u h = cc

source-IsPaidBack :
    (v : Services) (src : Option ℕ) (s : State)
    → is_unpaid s.refund.status ≡ true
    → IsCredited (paid_from src s)
    → IsPaidBack (pay_back v (paid_from src s))
source-IsPaidBack v none s u h = rw (pay_back-no_source v s u) (
    after_answer-IsPaidBack (raised attribute_error) (paid_from none s)
      (no_events s.refund.status s.events u h.count) h)
source-IsPaidBack v (some x) s u h = rw (pay_back-source v s x u) (
    after_answer-IsPaidBack _ (paid_from (some x) s) (no_events s.refund.status s.events u h.count)
      h)

pub pay_back-IsPaidBack :
    (v : Services) (s : State)
    → is_unpaid s.refund.status ≡ true
    → IsCredited s
    → IsPaidBack (pay_back v s)
pay_back-IsPaidBack v s u h = source-IsPaidBack v s.refund.order.source s u h

-- What follows a payment step: only a `true` goes on.
after_paying :
    (q : Result Bool × State) (k : Method Bool)
    → IsPaidBack q
    → Keeps IsSettled k
    → IsCredited
        (elim q.0 as (λ r. Result Bool × State) [
          | ok b ↦ (if b then k else pure false) q.1
          | raised e ↦ (raised e, q.1)
        ]).1
after_paying (ok true, s) k h keep = (keep s (h.1 refl)).1
after_paying (ok false, s) k h keep = h.0
after_paying (raised e, s) k h keep = h.0

approved-IsCredited :
    (v : Services) (revoke : Bool) (t : RefundStatus) (s : State)
    → IsCredited (at t s)
    → IsCredited (approve v revoke (at t s)).1
unfolding approve
approved-IsCredited v revoke RefundStatus.opened s h =
    after_paying (pay_back v (at RefundStatus.opened s))
      (issue_credit_for_enterprise_offer v >> settle v revoke)
      (pay_back-IsPaidBack v (at RefundStatus.opened s) refl h) (pay-IsSettled v revoke)
approved-IsCredited v revoke RefundStatus.payment_refund_error s h =
    after_paying (pay_back v (at RefundStatus.payment_refund_error s))
      (issue_credit_for_enterprise_offer v >> settle v revoke)
      (pay_back-IsPaidBack v (at RefundStatus.payment_refund_error s) refl h)
      (pay-IsSettled v revoke)
approved-IsCredited v revoke RefundStatus.payment_refunded s h =
    (settle-IsSettled v revoke (at RefundStatus.payment_refunded s) (refl, h)).1
approved-IsCredited v revoke RefundStatus.revocation_error s h =
    (settle-IsSettled v revoke (at RefundStatus.revocation_error s) (refl, h)).1
approved-IsCredited v revoke _ s h = h

pub approve-IsCredited : (v : Services) (revoke : Bool) → Keeps IsCredited (approve v revoke)
approve-IsCredited v revoke s h = approved-IsCredited v revoke s.refund.status s h

denied-IsCredited :
    (t : RefundStatus) (s : State) → IsCredited (at t s) → IsCredited (deny (at t s)).1
unfolding deny
denied-IsCredited RefundStatus.opened s h = record {
  count = h.count;
  amounts = h.amounts;
  booked = h.booked;
}
denied-IsCredited _ s h = h

pub deny-IsCredited : Keeps IsCredited deny
deny-IsCredited s h = denied-IsCredited s.refund.status s h
