-- ===== src/Base/Keeps.antt =====
-- What a call keeps true of the state, whether it returns or raises.
use mathlib.Core.Bool.{Bool, true, false}
use edx_ecommerce.Base.Bools.{if◌then◌else◌}
use edx_ecommerce.Base.Action.{
  Action, Result, ok, raised, Exc, pure, gets, call, raise, try_except, ◌>>=◌, ◌>>◌,
}

abbrev pub Keeps {ℓ} : {S A : Type 0} → (S → Type ℓ) → Action S A → Type ℓ
Keeps {S} P m = (s : S) → P s → P (m s).1

module _ {ℓ} {S A B : Type 0} (P : S → Type ℓ) where
  bind_state :
      (q : Result A × S) (f : A → Action S B)
      → P q.1
      → ((a : A) → Keeps P (f a))
      → P (elim q.0 as (λ r. Result B × S) [ ok a ↦ f a q.1 | raised e ↦ (raised e, q.1) ]).1
  bind_state (ok a, s) f h k = k a s h
  bind_state (raised e, s) f h k = h

  pub Keeps->>= :
      (m : Action S A) (f : A → Action S B)
      → Keeps P m
      → ((a : A) → Keeps P (f a))
      → Keeps P (m >>= f)
  Keeps->>= m f h k s p = bind_state (m s) f (h s p) k

  pub Keeps->> : (m : Action S A) (k : Action S B) → Keeps P m → Keeps P k → Keeps P (m >> k)
  Keeps->> m k h j s p = bind_state (m s) (λ _. k) (h s p) (λ _. j)

module _ {ℓ} {S A : Type 0} (P : S → Type ℓ) where
  handled_state :
      (q : Result A × S) (f : Exc → Action S A)
      → P q.1
      → ((e : Exc) → Keeps P (f e))
      → P (elim q.0 as (λ r. Result A × S) [ ok a ↦ (ok a, q.1) | raised e ↦ f e q.1 ]).1
  handled_state (ok a, s) f h k = h
  handled_state (raised e, s) f h k = k e s h

  pub Keeps-try_except :
      (m : Action S A) (f : Exc → Action S A)
      → Keeps P m
      → ((e : Exc) → Keeps P (f e))
      → Keeps P (try_except m f)
  Keeps-try_except m f h k s p = handled_state (m s) f (h s p) k

  pub Keeps-if :
      (b : Bool) (m k : Action S A) → Keeps P m → Keeps P k → Keeps P (if b then m else k)
  Keeps-if true m k h j = h
  Keeps-if false m k h j = j

  pub Keeps-pure : (a : A) → Keeps P (pure a)
  Keeps-pure a s h = h

  pub Keeps-gets : (f : S → A) → Keeps P (gets f)
  Keeps-gets f s h = h

  pub Keeps-call : (r : Result A) → Keeps P (call r)
  Keeps-call r s h = h

pub Keeps-raise {ℓ} :
    {S : Type 0} (A : Type 0) (P : S → Type ℓ) (e : Exc) → Keeps P (raise {S = S} {A = A} e)
Keeps-raise A P e s h = h

pub ruleset keeping = (Keeps->>=, Keeps->>, Keeps-if, Keeps-pure, Keeps-gets, Keeps-call)
