-- ===== src/Assign/Create.antt =====
-- `CouponCodeAssignmentSerializer.create` of ecommerce/extensions/api/serializers.py. The mails
-- that it sends, with their records and the subscription to nudges, are left out.
use edx_ecommerce.Base.{ℕ, zero, suc, Bool, true, false, Option, none, some, List, [], ◌∷◌, ◌++◌, ⊤}
use edx_ecommerce.Base.Action.{Action, ok, raised, other, pure, modify, ◌>>=◌, ◌>>◌}
use edx_ecommerce.Assign.Validate.{Available}

-- An `OfferAssignment` that is created, with the status of its default.
pub record Assigned : Type 0 where
  pub code : ℕ
  pub user_email : ℕ

-- The users that the iterator has left, and the assignments created so far.
pub record State : Type 0 where
  pub users : List ℕ
  pub offer_assignments : List Assigned

-- `next(users_iterator)`; a `StopIteration` when there is none.
abbrev pub next_of : List ℕ → Action State ℕ
next_of [] s = (raised other, s)
next_of (u ∷ us) s = (ok u, record s { users = us })

abbrev pub next_user : Action State ℕ
next_user s = next_of s.users s

abbrev pub add : (code user : ℕ) → State → State
add code user s = record s {
  offer_assignments = s.offer_assignments ++ record { code = code; user_email = user } ∷ [];
}

-- `user or next(users_iterator)`
abbrev pub user_or_next : Option ℕ → Action State ℕ
user_or_next none = next_user
user_or_next (some u) = pure u

unfoldable pub assign : (code slots : ℕ) → (user : Option ℕ) → Action State ⊤
assign code zero user = pure tt
assign code (suc n) user = (user_or_next user >>= λ u. modify (add code u)) >> assign code n user

unfoldable pub assign_code : (multi : Bool) → Available → Action State ⊤
unfolding assign
assign_code true a = next_user >>= λ u. assign a.code a.num_slots (some u)
assign_code false a = assign a.code a.num_slots none

unfoldable pub create : (multi : Bool) → List Available → Action State ⊤
unfolding assign_code
create multi [] = pure tt
create multi (a ∷ entries) = assign_code multi a >> create multi entries
