-- ===== src/Base/Action.antt =====
-- Python calls as functions of a state: a call returns or raises, and what it wrote before it
-- raised stays written.
use mathlib.Core.Path.{◌≡◌, refl}
use mathlib.Core.Logic.{◌⊎◌, inl, inr}
use mathlib.Core.Bool.{Bool, true, false}
use mathlib.Core.Option.{Option, none, some}
use edx_ecommerce.Base.Bools.{⊤}

-- The exceptions that the modelled code raises or tells apart; `other` is any other one.
pub data Exc : Type 0 where
  invalid_status payment_error attribute_error not_implemented incorrect_order_status : Exc
  connection_error timeout http_error validation_error already_placed_order index_error : Exc
  key_error value_error invalid_shipping_event not_free type_error gateway_error : Exc
  redundant_payment other : Exc

pub data Result {ℓ} (A : Type ℓ) : Type ℓ where
  ok : A → Result A
  raised : Exc → Result A

abbrev pub returns {ℓ} : {A : Type ℓ} → Result A → Bool
returns (ok a) = true
returns (raised e) = false

pub Result-cases {ℓ} :
    {A : Type ℓ} (r : Result A) → ((a : A) × (r ≡ ok a)) ⊎ ((e : Exc) × (r ≡ raised e))
Result-cases (ok a) = inl (a, refl)
Result-cases (raised e) = inr (e, refl)

abbrev pub Action : Type 0 → Type 0 → Type 0
Action S A = S → Result A × S

module _ {S A : Type 0} where
  abbrev pub pure : A → Action S A
  pure a s = (ok a, s)

  abbrev pub raise : Exc → Action S A
  raise e s = (raised e, s)

  abbrev pub gets : (S → A) → Action S A
  gets f s = (ok (f s), s)

  -- A call whose outcome is known, and which leaves the state alone.
  abbrev pub call : Result A → Action S A
  call r s = (r, s)

  abbrev pub or_raise : Option A → Exc → Action S A
  or_raise none e = raise e
  or_raise (some a) e = pure a

  -- `try: m  except …: handler`, where the handler decides by the exception.
  abbrev pub try_except : Action S A → (Exc → Action S A) → Action S A
  try_except m handler s =
      let (r, s') = m s in elim r [ ok a ↦ (ok a, s') | raised e ↦ handler e s' ]

infixl 5 ◌>>=◌ ◌>>◌
abbrev pub ◌>>=◌ : {S A B : Type 0} → Action S A → (A → Action S B) → Action S B
◌>>=◌ m f s = let (r, s') = m s in elim r [ ok a ↦ f a s' | raised e ↦ (raised e, s') ]

abbrev pub ◌>>◌ : {S A B : Type 0} → Action S A → Action S B → Action S B
m >> k = m >>= λ _. k

abbrev pub modify : {S : Type 0} → (S → S) → Action S ⊤
modify f s = (ok tt, f s)
