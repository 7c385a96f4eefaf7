-- ===== src/Offer/Satisfied.antt =====
-- `is_email_valid`, `is_condition_satisfied` and `is_current` of `ConditionalOffer`
-- (ecommerce/extensions/offer/models.py).
use edx_ecommerce.Base.{
  ℕ, ◌≤◌, ◌<◌, ◌≡◌, refl, ap, sym, ◌∙◌, Bool, true, false, not, ◌&&◌, Option, none, some, List, [],
  ◌∷◌, ◌==◌, ltb, leb, if◌then◌else◌, is_some, any, length, arith, ◌⊎◌, inl, inr, ==→≡,
}
use edx_ecommerce.Base.Action.{Result, ok, raised}
use edx_ecommerce.Offer.Applicable.{Line, Cache, get_applicable_lines}
use edx_ecommerce.Offer.Range.{Range}

-- `email_domains` is split at its commas, and empty when it is blank. `multi_use` is whether the
-- offer's voucher, if it has one, is for many uses.
pub record Offer : Type 0 where
  pub email_domains : List ℕ
  pub range : Option Range
  pub multi_use : Option Bool
  pub start_datetime : Option ℕ
  pub end_datetime : Option ℕ

-- `matches domain email` is whether the pattern made for the domain matches the whole e-mail address.
unfoldable pub is_email_valid : (matches : ℕ → ℕ → Bool) → Offer → (email : ℕ) → Bool
is_email_valid matches offer email = elim offer.email_domains [
  | [] ↦ true
  | domain ∷ domains ↦ any (λ d. matches d email) (domain ∷ domains)
]

-- What the methods call besides: the basket's owner and the answers of other code.
pub record Call : Type 0 where
  pub matches : ℕ → ℕ → Bool
  pub owner_email : Option ℕ
  pub lines : List Line
  pub accepts : ℕ → Bool
  pub discovery : List ℕ → List ℕ → Result (ℕ → Option Bool)
  pub super_answer : Result Bool

abbrev pub email_refused : Call → Offer → Option ℕ → Bool
email_refused c offer none = false
email_refused c offer (some email) = not (is_email_valid c.matches offer email)

-- A voucher that is not for many uses, on a basket of several lines.
abbrev pub is_single_item_only : Option Bool → (num_lines : ℕ) → Bool
is_single_item_only none n = false
is_single_item_only (some multi) n = ltb 1 n && not multi

abbrev pub as_many : ℕ → Result (List (ℕ × Line)) × Cache → Result Bool × Cache
as_many n (ok applicable, cache) = (ok (length applicable == n), cache)
as_many n (raised e, cache) = (raised e, cache)

abbrev pub by_range : Call → Offer → Option Range → Cache → Result Bool × Cache
by_range c offer none cache = (c.super_answer, cache)
by_range c offer (some r) cache =
    if is_some r.enterprise_customer
    then (ok false, cache)
    else if not (is_some r.catalog_query)
    then (c.super_answer, cache)
    else if is_single_item_only offer.multi_use (length c.lines)
    then (ok false, cache)
    else as_many (length c.lines) (get_applicable_lines c.accepts c.discovery c.lines cache)

unfoldable pub is_condition_satisfied : Call → Offer → Cache → Result Bool × Cache
unfolding is_email_valid get_applicable_lines
is_condition_satisfied c offer cache =
    if email_refused c offer c.owner_email
    then (ok false, cache)
    else by_range c offer offer.range cache

unfoldable pub is_current : (now : ℕ) → (start_datetime end_datetime : Option ℕ) → Bool
is_current now none none = true
is_current now (some start) none = leb start now
is_current now none (some end_date) = ltb now end_date
is_current now (some start) (some end_date) = leb start now && ltb now end_date

-- Whether the instant is in the interval, whose missing ends are open.
abbrev pub IsWithin : ℕ → Option ℕ → Option ℕ → Type 0
IsWithin now start_datetime end_datetime =
    ((s : ℕ) → start_datetime ≡ some s → s ≤ now) × ((e : ℕ) → end_datetime ≡ some e → now < e)

-- What the condition asks of a basket, for a range with a catalog query.
pub record IsCovered (c : Call) (offer : Offer) (r : Range) (cache cache' : Cache) : Type 0 where
  pub accepted :
      (email : ℕ)
      → c.owner_email ≡ some email
      → (offer.email_domains ≡ []) ⊎ (any (λ d. c.matches d email) offer.email_domains ≡ true)
  pub no_enterprise : r.enterprise_customer ≡ none
  pub usable : offer.multi_use ≡ some false → length c.lines ≤ 1
  pub applicable : List (ℕ × Line)
  pub answered : get_applicable_lines c.accepts c.discovery c.lines cache ≡ (ok applicable, cache')
  pub all_lines : length applicable ≡ length c.lines

is_email_valid-matches :
    (matches : ℕ → ℕ → Bool) (offer : Offer) (email : ℕ) (ds : List ℕ)
    → offer.email_domains ≡ ds
    → is_email_valid matches offer email ≡ true
    → (ds ≡ []) ⊎ (any (λ d. matches d email) ds ≡ true)
unfolding is_email_valid
is_email_valid-matches matches offer email [] e h = inl refl
is_email_valid-matches matches offer email (d ∷ ds) e h =
    inr (sym (rw (e, is_email_valid) refl) ∙ h)

accepted_owner :
    (c : Call) (offer : Offer) (email : ℕ)
    → email_refused c offer c.owner_email ≡ false
    → c.owner_email ≡ some email
    → (offer.email_domains ≡ []) ⊎ (any (λ d. c.matches d email) offer.email_domains ≡ true)
accepted_owner c offer email h e =
    let k = ap (email_refused c offer) (sym e) ∙ h in
    is_email_valid-matches c.matches offer email offer.email_domains refl (ground (arith, k))

none_left : (x : Option ℕ) → is_some x ≡ false → x ≡ none
none_left none h = refl
none_left (some n) h = cc

at_most_one :
    (multi : Option Bool) (n : ℕ) → is_single_item_only multi n ≡ false → multi ≡ some false → n ≤ 1
at_most_one none n h e = cc
at_most_one (some true) n h e = cc
at_most_one (some false) n h e = ground (arith, h)

abbrev answer_of : Result Bool → Bool
answer_of (ok b) = b
answer_of (raised e) = false

covered_by :
    (n : ℕ) (q : Result (List (ℕ × Line)) × Cache) (cache' : Cache)
    → as_many n q ≡ (ok true, cache')
    → (applicable : List (ℕ × Line)) × (q ≡ (ok applicable, cache')) × (length applicable ≡ n)
covered_by n (ok applicable, cache) cache' h = (
  applicable,
  ap (λ q. (ok applicable, q.1)) h,
  ==→≡ (length applicable) n (ap (λ q. answer_of q.0) h),
)
covered_by n (raised e, cache) cache' h = cc

passes :
    (refused enterprise dynamic single : Bool) (super : Result Bool) (cache : Cache)
    (q : Result Bool × Cache) (cache' : Cache)
    → dynamic ≡ true
    → (if refused
        then (ok false, cache)
        else if enterprise
        then (ok false, cache)
        else if not dynamic
        then (super, cache)
        else if single
        then (ok false, cache)
        else q)
      ≡ (ok true, cache')
    → (refused ≡ false) × (enterprise ≡ false) × (single ≡ false) × (q ≡ (ok true, cache'))
passes false false true false super cache q cache' d h = (refl, refl, refl, h)
passes _ _ _ _ super cache q cache' d h = cc

-- The condition of an offer whose range has a catalog query is satisfied only if the offer has no
-- e-mail domains, or one of them matches the owner's address, if there is an owner; the range is no
-- enterprise's; the basket has at most one line if the offer's voucher is not for many uses; and
-- `get_applicable_lines` returns as many lines as the basket has.
pub is_condition_satisfied-IsCovered :
    (c : Call) (offer : Offer) (r : Range) (cache cache' : Cache)
    → offer.range ≡ some r
    → is_some r.catalog_query ≡ true
    → is_condition_satisfied c offer cache ≡ (ok true, cache')
    → IsCovered c offer r cache cache'
unfolding is_condition_satisfied
is_condition_satisfied-IsCovered c offer r cache cache' e d h =
    let applicable = get_applicable_lines c.accepts c.discovery c.lines cache in
    let (accepted, no_enterprise, usable, counted) =
      passes (email_refused c offer c.owner_email) (is_some r.enterprise_customer)
        (is_some r.catalog_query) (is_single_item_only offer.multi_use (length c.lines))
        c.super_answer cache (as_many (length c.lines) applicable) cache' d
        (ap
            (λ x.
              if email_refused c offer c.owner_email
              then (ok false, cache)
              else by_range c offer x cache)
            (sym e)
          ∙ h) in
    let (lines, answered, all_lines) = covered_by (length c.lines) applicable cache' counted in
    record {
      accepted = λ email. accepted_owner c offer email accepted;
      no_enterprise = none_left r.enterprise_customer no_enterprise;
      usable = at_most_one offer.multi_use (length c.lines) usable;
      applicable = lines;
      answered = answered;
      all_lines = all_lines;
    }

abbrev from_some : Option ℕ → ℕ
from_some none = 0
from_some (some n) = n

in_interval : (now : ℕ) (s e : Option ℕ) → is_current now s e ≡ true → IsWithin now s e
unfolding is_current
in_interval now none none h = (λ _ q. cc, λ _ q. cc)
in_interval now (some a) none h = (λ x q. (let w = ap (from_some) q in ground arith), λ _ q. cc)
in_interval now none (some b) h = (λ _ q. cc, λ x q. (let w = ap (from_some) q in ground arith))
in_interval now (some a) (some b) h = (
  λ x q. (let w = ap (from_some) q in ground arith),
  λ x q. (let w = ap (from_some) q in ground arith),
)

is_current_when : (now : ℕ) (s e : Option ℕ) → IsWithin now s e → is_current now s e ≡ true
unfolding is_current
is_current_when now none none w = refl
is_current_when now (some a) none w = (let h = w.0 a refl in ground arith)
is_current_when now none (some b) w = (let k = w.1 b refl in ground arith)
is_current_when now (some a) (some b) w = (let h = w.0 a refl in let k = w.1 b refl in ground arith)

-- An offer is current exactly when the instant is not before its start, if it has one, and before its
-- end, if it has one.
pub is_current-IsWithin :
    (now : ℕ) (s e : Option ℕ)
    → (is_current now s e ≡ true → IsWithin now s e)
      × (IsWithin now s e → is_current now s e ≡ true)
is_current-IsWithin now s e = (in_interval now s e, is_current_when now s e)
