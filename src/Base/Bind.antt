-- ===== src/Base/Bind.antt =====
-- The next call after one that returned or raised.
use mathlib.Core.Path.{◌≡◌, ap}
use edx_ecommerce.Base.Action.{Action, Result, ok, raised, Exc, ◌>>=◌, ◌>>◌}

module _ {S A B : Type 0} (m : Action S A) where
  next : (A → Action S B) → Result A × S → Result B × S
  next f q = elim q.0 as (λ r. Result B × S) [ ok a ↦ f a q.1 | raised e ↦ (raised e, q.1) ]

  pub >>-returns : (k : Action S B) {a : A} {s t : S} → m s ≡ (ok a, t) → (m >> k) s ≡ k t
  unfolding next
  >>-returns k h = ap (next (λ _. k)) h

  pub >>-raises :
      (k : Action S B) {e : Exc} {s t : S} → m s ≡ (raised e, t) → (m >> k) s ≡ (raised e, t)
  unfolding next
  >>-raises k h = ap (next (λ _. k)) h

  pub >>=-returns : (f : A → Action S B) {a : A} {s t : S} → m s ≡ (ok a, t) → (m >>= f) s ≡ f a t
  unfolding next
  >>=-returns f h = ap (next f) h
