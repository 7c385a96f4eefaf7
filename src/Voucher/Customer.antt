-- ===== src/Voucher/Customer.antt =====
-- `is_available_to_user`: a voucher for many uses by one customer.
use edx_ecommerce.Base.{
  ℕ, ◌≡◌, refl, ap, ◌∙◌, sym, Bool-cases, inl, inr, Bool, true, false, ◌||◌, not, Option, none,
  some, List, [], ◌∷◌, ◌==◌, if◌then◌else◌, any, all, arith,
}
use mathlib.Core.Bool.{and-eq-true_iff}
use edx_ecommerce.Voucher.Rows.{Usage, multi_use_per_customer, Voucher, VoucherApplication}

pub data Message : Type 0 where
  no_message assigned_to_another_user : Message
  from_oscar : ℕ → Message

abbrev pub is_same_user : Option ℕ → Option ℕ → Bool
is_same_user none none = true
is_same_user (some a) (some b) = a == b
is_same_user _ _ = false

-- `applications.exclude(user=user).exists()`
abbrev pub used_by_another : Option ℕ → List VoucherApplication → Bool
used_by_another user = any (λ a. not (is_same_user a.user user))

abbrev pub is_per_customer : Usage → Bool
is_per_customer multi_use_per_customer = true
is_per_customer _ = false

abbrev pub is_nothing : List VoucherApplication → Bool
is_nothing [] = true
is_nothing (a ∷ rest) = false

-- `super_answer` is what Oscar's own `is_available_to_user` returns.
unfoldable pub is_available_to_user :
    (super_answer : Bool × Message) → Voucher → (user : Option ℕ) → Bool × Message
is_available_to_user super_answer u user =
    if is_per_customer u.usage
    then if used_by_another user u.applications
      then (false, assigned_to_another_user)
      else (true, no_message)
    else super_answer

same_user_trans :
    (a b c : Option ℕ) → is_same_user a b ≡ true → is_same_user b c ≡ true → is_same_user a c ≡ true
same_user_trans none none none h k = refl
same_user_trans (some a) (some b) (some c) h k = ground arith
same_user_trans _ _ _ h k = cc

different_user :
    (a b c : Option ℕ)
    → is_same_user a b ≡ true
    → is_same_user b c ≡ false
    → is_same_user a c ≡ false
different_user none none (some c) h k = refl
different_user (some a) (some b) (some c) h k = ground arith
different_user (some a) (some b) none h k = refl
different_user _ _ _ h k = cc

used_by_another-other :
    (c user : Option ℕ) (a : VoucherApplication) (rest : List VoucherApplication)
    → is_same_user a.user c ≡ true
    → is_same_user c user ≡ false
    → used_by_another user (a ∷ rest) ≡ true
used_by_another-other c user a rest h k = rw (different_user a.user c user h k) refl

used_by_another-one :
    (c user : Option ℕ) (all_of : List VoucherApplication)
    → all (λ a. is_same_user a.user c) all_of ≡ true
    → is_same_user c user ≡ true
    → used_by_another user all_of ≡ false
used_by_another-one c user [] h k = refl
used_by_another-one c user (a ∷ rest) h k =
    let (h0, h1) =
      (and-eq-true_iff (is_same_user a.user c) (all (λ b. is_same_user b.user c) rest)).0 h in
    ground (arith, same_user_trans a.user c user h0 k, used_by_another-one c user rest h1 k)

availability :
    (c user : Option ℕ) (all_of : List VoucherApplication)
    → all (λ a. is_same_user a.user c) all_of ≡ true
    → used_by_another user all_of ≡ not (is_nothing all_of || is_same_user c user)
availability c user [] h = refl
availability c user (a ∷ rest) h =
    let (h0, h1) =
      (and-eq-true_iff (is_same_user a.user c) (all (λ b. is_same_user b.user c) rest)).0 h in
    elim (Bool-cases (is_same_user c user)) [
      | inl k ↦ used_by_another-one c user (a ∷ rest) h k ∙ ap not (sym k)
      | inr k ↦ used_by_another-other c user a rest h0 k ∙ ap not (sym k)
    ]

-- A voucher for many uses by one customer, whose applications are all by the customer `c`: after the
-- first of them it is available to `c` and to no other user; before it, to everybody.
pub is_available_to_user-one :
    (super_answer : Bool × Message) (u : Voucher) (c user : Option ℕ)
    → u.usage ≡ multi_use_per_customer
    → all (λ a. is_same_user a.user c) u.applications ≡ true
    → (is_available_to_user super_answer u user).0
      ≡ (is_nothing u.applications || is_same_user c user)
unfolding is_available_to_user
is_available_to_user-one super_answer u c user usage h =
    ground (arith, availability c user u.applications h, usage)
