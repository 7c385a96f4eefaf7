-- ===== src/Refund/Retry.antt =====
-- What goes wrong with lines that are revoked a second time, or that no module supports.
use edx_ecommerce.Base.{
  ◌⊎◌, ◌≡◌, ◌≢◌, refl, ap, ◌∙◌, Bool, true, false, ◌&&◌, List, [], ◌∷◌, any, All, inl, inr,
  Bool-cases, arith,
}
use mathlib.Core.Bool.{and-eq-true_iff}
use edx_ecommerce.Base.Action.{Result, ok, raised, returns}
use edx_ecommerce.Refund.{
  RefundLineStatus, OrderLine, RefundLine, RevokeModule, State, Services, revoke_line_fulfillment,
  revoke_by, for_lines, then_lines, get_fulfillment_modules_for_line,
}
use edx_ecommerce.Refund.Approve.{approve}
use edx_ecommerce.Refund.Settlement.{is_due, after_revoking, approve-due}
use edx_ecommerce.Refund.Lines.{line_at, answering, with_credit}

abbrev pub is_complete : RefundLineStatus → Bool
is_complete RefundLineStatus.complete = true
is_complete _ = false

-- The line was revoked before, and a module supports it.
abbrev pub is_revoked_again : List RevokeModule → RefundLine → Bool
is_revoked_again ms l = is_complete l.status && any (λ m. m.supports_line l.order_line) ms

complete_raises :
    (m : RevokeModule) (us : List RevokeModule) (b : Bool) (r : Result Bool) (l : RefundLine)
    → returns (revoke_by (answering r m ∷ us) b (line_at RefundLineStatus.complete l)).0 ≡ false
unfolding revoke_by
complete_raises m us b (ok true) l = refl
complete_raises m us b (ok false) l = refl
complete_raises m us b (raised e) l = refl

complete_raises_at :
    (m : RevokeModule) (us : List RevokeModule) (b : Bool) (t : RefundLineStatus) (l : RefundLine)
    → is_complete t ≡ true
    → returns (revoke_by (m ∷ us) b (line_at t l)).0 ≡ false
unfolding revoke_by
complete_raises_at m us b RefundLineStatus.complete l c =
    complete_raises m us b (m.revoke_line l.order_line) l
complete_raises_at m us b _ l c = cc

kept :
    (ms : List RevokeModule) (o : OrderLine)
    → any (λ m. m.supports_line o) ms ≡ true
    → get_fulfillment_modules_for_line ms o ≢ []
unfolding get_fulfillment_modules_for_line
kept [] o h = cc
kept (m ∷ ms) o h = ground (arith, kept ms o)

raises_by :
    (us : List RevokeModule) (b : Bool) (l : RefundLine)
    → is_complete l.status ≡ true
    → us ≢ []
    → returns (revoke_by us b l).0 ≡ false
raises_by [] b l c n = absurd (n refl)
raises_by (m ∷ us) b l c n = complete_raises_at m us b l.status l c

line_raises :
    (ms : List RevokeModule) (b : Bool) (l : RefundLine)
    → is_revoked_again ms l ≡ true
    → returns (revoke_line_fulfillment ms b l).0 ≡ false
unfolding revoke_line_fulfillment
line_raises ms b l h =
    let (c, supported) = (and-eq-true_iff _ _).0 h in
    raises_by (get_fulfillment_modules_for_line ms l.order_line) b l c
      (kept ms l.order_line supported)

then_raises :
    (q : Result Bool × RefundLine) (rest : Bool → Result Bool × List RefundLine)
    (ls : List RefundLine)
    → (returns q.0 ≡ false) ⊎ ((b : Bool) → returns (rest b).0 ≡ false)
    → returns (then_lines q rest ls).0 ≡ false
then_raises (ok b, l) rest ls (inl h) = cc
then_raises (ok b, l) rest ls (inr h) = h b
then_raises (raised e, l) rest ls h = refl

lines_raise :
    (ms : List RevokeModule) (b : Bool) (ls : List RefundLine)
    → any (is_revoked_again ms) ls ≡ true
    → returns (for_lines (revoke_line_fulfillment ms) b ls).0 ≡ false
unfolding for_lines
lines_raise ms b [] h = cc
lines_raise ms b (l ∷ ls) h = elim (Bool-cases (is_revoked_again ms l)) [
  | inl again ↦ then_raises (revoke_line_fulfillment ms b l) _ ls (inl (line_raises ms b l again))
  | inr fresh ↦
      then_raises (revoke_line_fulfillment ms b l) _ ls
        (inr (λ b'. lines_raise ms b' ls (ground arith)))
]

after_raise :
    (q : Result Bool × List RefundLine) (s : State)
    → returns q.0 ≡ false
    → (returns (after_revoking q s).0 ≡ false)
      × ((after_revoking q s).1.refund.status ≡ s.refund.status)
after_raise (ok true, ls) s h = cc
after_raise (ok false, ls) s h = cc
after_raise (raised e, ls) s h = (refl, refl)

-- A refund with a credit whose payment is refunded or whose revocation failed before: if one of its
-- lines was revoked already, and a module supports it, then `approve` raises, whatever the services
-- answer, and leaves the refund in its status, so that it is not completed.
pub approve-revoked_again :
    (v : Services) (s : State)
    → is_due s.refund.status ≡ true
    → s.refund.total_credit_excl_tax ≢ 0
    → any (is_revoked_again v.modules) s.refund.lines ≡ true
    → (returns (approve v true s).0 ≡ false)
      × ((approve v true s).1.refund.status ≡ s.refund.status)
approve-revoked_again v s due nz again = rw (approve-due v s due) (
    after_raise _ s (
      rw (with_credit v.modules s.refund.total_credit_excl_tax s.refund.lines nz)
        (lines_raise v.modules true s.refund.lines again)))

unsupported_line :
    (ms : List RevokeModule) (b : Bool) (l : RefundLine)
    → any (λ m. m.supports_line l.order_line) ms ≡ false
    → revoke_line_fulfillment ms b l ≡ (ok b, l)
unfolding revoke_line_fulfillment revoke_by
unsupported_line [] b l h = refl
unsupported_line (m ∷ ms) b l h = elim (Bool-cases (m.supports_line l.order_line)) [
  | inl yes_it_does ↦ cc
  | inr e ↦ rw e (unsupported_line ms b l (ground arith))
]

unsupported_lines :
    (ms : List RevokeModule) (b : Bool) (ls : List RefundLine)
    → All (λ (l : RefundLine). any (λ m. m.supports_line l.order_line) ms ≡ false) ls
    → for_lines (revoke_line_fulfillment ms) b ls ≡ (ok b, ls)
unfolding for_lines
unsupported_lines ms b [] h = refl
unsupported_lines ms b (l ∷ ls) h =
    ap (λ q. then_lines q (λ b'. for_lines (revoke_line_fulfillment ms) b' ls) ls)
      (unsupported_line ms b l h.0)
    ∙ ap (λ q. (q.0, l ∷ q.1)) (unsupported_lines ms b ls h.1)

-- A refund with a credit whose payment is refunded or whose revocation failed before: if no module
-- supports any of its lines, `approve` completes the refund, returns `True` and revokes nothing:
-- every line keeps the status that it had.
pub approve-unsupported :
    (v : Services) (s : State)
    → is_due s.refund.status ≡ true
    → s.refund.total_credit_excl_tax ≢ 0
    → All
        (λ (l : RefundLine). any (λ m. m.supports_line l.order_line) v.modules ≡ false)
        s.refund.lines
    → approve v true s ≡ after_revoking (ok true, s.refund.lines) s
approve-unsupported v s due nz none_supports =
    approve-due v s due
    ∙ ap (λ q. after_revoking q s)
        (with_credit v.modules s.refund.total_credit_excl_tax s.refund.lines nz
          ∙ unsupported_lines v.modules true s.refund.lines none_supports)
