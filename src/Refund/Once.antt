-- ===== src/Refund/Once.antt =====
-- No order line is refunded twice: at most one of its refund lines is not denied.
use edx_ecommerce.Base.{
  ℕ, zero, suc, ==→≡, sum_of-append, ◌+◌, ◌≤◌, ◌≡◌, refl, sym, ap, ◌∙◌, Bool, true, false, not,
  some, List, [], ◌∷◌, ◌++◌, ◌==◌, if◌then◌else◌, any, keep, map, sum_of, arith, Bool-cases, inl,
  inr,
}
use mathlib.Core.Option.{some-injective}
use edx_ecommerce.Base.Action.{Result}
use edx_ecommerce.Refund.{OrderLine, RefundLine, Refund, State, Services, OrderInfo}
use edx_ecommerce.Refund.Creation.{
  is_active_for, has_active_refund, new_line, new_refund, World, in_world, create_for,
  approve_if_free, unrefunded, create_with_lines, add_refund,
}
use edx_ecommerce.Refund.Frame.{bare, approve-HasLines}

-- How often the lines of a refund, or of an order, name the order line `i`.
abbrev pub named : ℕ → List RefundLine → ℕ
named i = sum_of (λ l. if l.order_line.id == i then 1 else 0)

abbrev pub listed : ℕ → List OrderLine → ℕ
listed i = sum_of (λ o. if o.id == i then 1 else 0)

-- The refund lines of the order line `i` that are not denied, in one refund and in all.
abbrev pub active_in : ℕ → List RefundLine → ℕ
active_in i = sum_of (λ l. if is_active_for i l then 1 else 0)

abbrev pub active : ℕ → List Refund → ℕ
active i = sum_of (λ r. active_in i r.lines)

active_in-le-named : (i : ℕ) (ls : List RefundLine) → active_in i ls ≤ named i ls
active_in-le-named i [] = omega arith
active_in-le-named i (l ∷ ls) = ground (arith, active_in-le-named i ls)

named-bare : (i : ℕ) (ls : List RefundLine) → named i (map bare ls) ≡ named i ls
named-bare i [] = refl
named-bare i (l ∷ ls) = ap (λ n. (if l.order_line.id == i then 1 else 0) + n) (named-bare i ls)

named-new_line : (i : ℕ) (os : List OrderLine) → named i (map bare (map new_line os)) ≡ listed i os
named-new_line i [] = refl
named-new_line i (o ∷ os) = ap (λ n. (if o.id == i then 1 else 0) + n) (named-new_line i os)

listed-keep-le :
    (i : ℕ) (p : OrderLine → Bool) (os : List OrderLine) → listed i (keep p os) ≤ listed i os
listed-keep-le i p [] = omega arith
listed-keep-le i p (o ∷ os) = ground (arith, listed-keep-le i p os)

active_in_zero :
    (i : ℕ) (ls : List RefundLine) → any (is_active_for i) ls ≡ false → active_in i ls ≡ 0
active_in_zero i [] h = refl
active_in_zero i (l ∷ ls) h = ground (arith, active_in_zero i ls)

active_zero :
    (o : OrderLine) (rs : List Refund) → has_active_refund rs o ≡ false → active o.id rs ≡ 0
unfolding has_active_refund
active_zero o [] h = refl
active_zero o (r ∷ rs) h = ground (arith, active_in_zero o.id r.lines, active_zero o rs)

-- A line that has an active refund is not refunded again.
listed-unrefunded :
    (i : ℕ) (rs : List Refund) (os : List OrderLine)
    → 1 ≤ active i rs
    → listed i (unrefunded rs os) ≡ 0
unfolding unrefunded
listed-unrefunded i rs [] h = refl
listed-unrefunded i rs (o ∷ os) h = elim (Bool-cases (o.id == i)) [
  | inl same ↦ elim (Bool-cases (has_active_refund rs o)) [
    | inl has ↦ rw has (listed-unrefunded i rs os h)
    | inr has_none ↦
        absurd
          (omega (arith, h, active_zero o rs has_none, ap (λ k. active k rs) (==→≡ o.id i same)))
  ]
  | inr other ↦ elim (Bool-cases (has_active_refund rs o)) [
    | inl has ↦ rw has (listed-unrefunded i rs os h)
    | inr has_none ↦ rw (has_none, other) (omega (arith, listed-unrefunded i rs os h))
  ]
]

active-add :
    (i : ℕ) (rs : List Refund) (r : Refund)
    → active i (rs ++ (r ∷ [])) ≡ active i rs + active_in i r.lines
active-add i rs r = sum_of-append (λ r. active_in i r.lines) rs (r ∷ []) ∙ omega arith

unrefunded-le :
    (i : ℕ) (rs : List Refund) (os : List OrderLine) → listed i (unrefunded rs os) ≤ listed i os
unfolding unrefunded
unrefunded-le i rs os = listed-keep-le i (λ o. not (has_active_refund rs o)) os

approve_if_free-HasLines :
    (v : Services) (s : State)
    → map bare (approve_if_free v s).1.refund.lines ≡ map bare s.refund.lines
unfolding approve_if_free
approve_if_free-HasLines v s = elim (Bool-cases (s.refund.total_credit_excl_tax == 0)) [
  | inl free ↦ rw (free, approve_if_free) (approve-HasLines (map bare s.refund.lines) v true s refl)
  | inr credit ↦ rw (credit, approve_if_free) refl
]

create_for-lines :
    (v : Services) (order : OrderInfo) (w : World) (os : List OrderLine) {q : Result Bool × State}
    → create_for v order w os ≡ some q
    → map bare q.1.refund.lines ≡ map bare (map new_line os)
create_for-lines v order w [] e = cc
create_for-lines v order w (o ∷ os) e =
    ap (λ (q : Result Bool × State). map bare q.1.refund.lines) (sym (some-injective _ _ e))
    ∙ approve_if_free-HasLines v (in_world w (new_refund order (o ∷ os)))

-- If each order line has at most one refund line that is not denied, and the lines given are
-- distinct, it is so again after `create_with_lines`, its automatic approval included.
pub create_with_lines-once :
    (v : Services) (order : OrderInfo) (lines : List OrderLine) (refunds : List Refund) (w : World)
    (i : ℕ) {q : Result Bool × State}
    → create_with_lines v order lines refunds w ≡ some q
    → listed i lines ≤ 1
    → active i refunds ≤ 1
    → active i (add_refund refunds q.1).0 ≤ 1
unfolding create_with_lines
create_with_lines-once v order lines refunds w i {q} e distinct once =
    let todo = unrefunded refunds lines in
    let same = create_for-lines v order w todo e in
    let new : active_in i q.1.refund.lines ≤ listed i todo = omega (
      arith,
      active_in-le-named i q.1.refund.lines,
      sym (named-bare i q.1.refund.lines),
      ap (named i) same,
      named-new_line i todo,
    ) in
    elim (active i refunds)
        as (λ n. n ≡ active i refunds → active i (add_refund refunds q.1).0 ≤ 1) [
          | zero ↦ λ none_yet.
              omega (arith, active-add i refunds q.1.refund, new, unrefunded-le i refunds lines)
          | suc n ↦ λ one. omega (
            arith,
            active-add i refunds q.1.refund,
            new,
            listed-unrefunded i refunds lines (omega arith),
          )
        ]
      refl
