-- ===== src/Enterprise/Eligible.antt =====
-- When `EnterpriseCustomerCondition.is_satisfied` returns `True`.
use edx_ecommerce.Base.{
  ℕ, ◌≡◌, refl, ap, sym, ◌∙◌, Bool, true, false, not, ◌&&◌, ⊤, Option, none, some, List, ◌==◌,
  if◌then◌else◌, Bool-cases, inl, inr, arith,
}
use edx_ecommerce.Base.Action.{Result, ok, raised, Action, ◌>>◌, pure}
use edx_ecommerce.Base.Int.{ℤ, pos, ◌+ℤ◌, ◌≤ℤ◌, leb_ℤ}
use edx_ecommerce.Offer.{ConditionalOffer}
use edx_ecommerce.Enterprise.{
  Basket, User, Services, World, priority_enterprise, within, get_basket_discount_value,
  sum_user_discounts_for_offer, is_offer_max_discount_available,
  is_offer_max_user_discount_available,
}
use edx_ecommerce.Enterprise.Condition.{
  course_ids, is_same, is_of_other_enterprise, is_other_catalog, is_caught, is_voucher,
  get_enterprise_catalog_uuid_from_basket, link, check_limits, check_user, check_ids, is_satisfied,
}

-- Everything that the condition asks of a basket and its owner.
pub record IsEligible (v : Services) (offer : ConditionalOffer) (b : Basket) : Type 0 where
  pub user : User
  pub owned : b.owner ≡ some user
  pub ids : List ℕ
  pub collected : course_ids offer b.lines ≡ ok (some ids)
  pub same_enterprise :
      (e : ℕ) → v.enterprise_of_user user ≡ some e → offer.enterprise_customer_uuid ≡ some e
  pub same_catalog :
      (c : ℕ)
      → get_enterprise_catalog_uuid_from_basket v b ≡ some c
      → offer.enterprise_customer_catalog_uuid ≡ some c
  pub contained :
      v.catalog_contains_course_runs ids offer.enterprise_customer_uuid
        offer.enterprise_customer_catalog_uuid
      ≡ ok true
  pub within_limit :
      (limit : ℤ)
      → offer.priority ≡ priority_enterprise
      → offer.max_discount ≡ some limit
      → pos (get_basket_discount_value v b offer) +ℤ offer.total_discount ≤ℤ limit
  pub within_user_limit :
      (limit : ℤ)
      → offer.priority ≡ priority_enterprise
      → offer.max_user_discount ≡ some limit
      → pos (get_basket_discount_value v b offer)
          +ℤ pos (sum_user_discounts_for_offer v user.id offer)
        ≤ℤ limit

same_some : (x : Option ℕ) (e f : ℕ) → not (is_same x e) ≡ false → some e ≡ some f → x ≡ some f
same_some none e f h k = cc
same_some (some a) e f h k = let q : a ≡ e = ground (arith, h) in ap some q ∙ k

not_other_enterprise :
    (offer : ConditionalOffer) (x : Option ℕ)
    → is_of_other_enterprise offer x ≡ false
    → (e : ℕ) → x ≡ some e
    → offer.enterprise_customer_uuid ≡ some e
not_other_enterprise offer none h e k = cc
not_other_enterprise offer (some a) h e k = same_some offer.enterprise_customer_uuid a e h k

not_other_catalog :
    (offer : ConditionalOffer) (x : Option ℕ)
    → is_other_catalog offer x ≡ false
    → (c : ℕ) → x ≡ some c
    → offer.enterprise_customer_catalog_uuid ≡ some c
not_other_catalog offer none h c k = cc
not_other_catalog offer (some a) h c k = same_some offer.enterprise_customer_catalog_uuid a c h k

leb-le : (a b : ℤ) → leb_ℤ a b ≡ true → a ≤ℤ b
leb-le a b h = ground arith

gated :
    (other : Bool) (contains : Result Bool) (all user : Bool)
    → (if other then ok false else elim contains as (λ r. Result Bool) [
      | raised e ↦ (if is_caught e then ok false else raised e)
      | ok c ↦ ok ((c && all) && user)
    ])
      ≡ ok true
    → (other ≡ false) × (contains ≡ ok true) × (all ≡ true) × (user ≡ true)
gated true contains all user h = cc
gated false (raised e) all user h = ground arith
gated false (ok c) all user h = ground arith

refused_by :
    (q : Result ⊤ × World) (w' : World)
    → (elim q.0 as (λ r. Result Bool × World) [
      | ok u ↦ (ok false, q.1)
      | raised e ↦ (raised e, q.1)
    ])
      ≡ (ok true, w')
    → ⊥
refused_by (ok tt, w) w' h = cc
refused_by (raised e, w) w' h = cc

refused : (m : Action World ⊤) (w w' : World) → (m >> pure false) w ≡ (ok true, w') → ⊥
refused m w w' h = refused_by (m w) w' h

enterprise_only :
    (priority : ℕ) (b : Bool)
    → priority ≡ priority_enterprise
    → (if not (priority == priority_enterprise) then true else b) ≡ true
    → b ≡ true
enterprise_only priority b p h = ground arith

module _ (v : Services) (offer : ConditionalOffer) (b : Basket) where
  limits :
      (total : ℤ) (limit : Option ℤ) (m : ℤ)
      → within limit total ≡ true
      → limit ≡ some m
      → total ≤ℤ m
  limits total limit m h e = leb-le total m (ap (λ x. within x total) (sym e) ∙ h)

  IsEligible-limits :
      (user : User) (ids : List ℕ)
      → b.owner ≡ some user
      → course_ids offer b.lines ≡ ok (some ids)
      → is_of_other_enterprise offer (v.enterprise_of_user user) ≡ false
      → check_limits v offer b user ids ≡ ok true
      → IsEligible v offer b
  unfolding check_limits is_offer_max_discount_available is_offer_max_user_discount_available
  IsEligible-limits user ids o c n h =
      let (same, contained, all, one) =
        gated (is_other_catalog offer (get_enterprise_catalog_uuid_from_basket v b))
          (v.catalog_contains_course_runs ids offer.enterprise_customer_uuid
            offer.enterprise_customer_catalog_uuid)
          (is_offer_max_discount_available v b offer)
          (is_offer_max_user_discount_available v user.id b offer) h in
      record {
        user = user;
        owned = o;
        ids = ids;
        collected = c;
        same_enterprise = not_other_enterprise offer (v.enterprise_of_user user) n;
        same_catalog = not_other_catalog offer (get_enterprise_catalog_uuid_from_basket v b) same;
        contained = contained;
        within_limit = λ limit p e.
            limits _ offer.max_discount limit (enterprise_only offer.priority _ p all) e;
        within_user_limit = λ limit p e.
            limits _ offer.max_user_discount limit (enterprise_only offer.priority _ p one) e;
      }

  IsEligible-user :
      (user : User) (ids : List ℕ) (w w' : World)
      → b.owner ≡ some user
      → course_ids offer b.lines ≡ ok (some ids)
      → check_user v offer b user ids w ≡ (ok true, w')
      → IsEligible v offer b × (w' ≡ w)
  unfolding check_user
  IsEligible-user user ids w w' o c h =
      let linking = if is_voucher offer.offer_type then link v offer user else pure tt in
      let other = is_of_other_enterprise offer (v.enterprise_of_user user) in
      elim (Bool-cases other) [
        | inl n ↦
            elim (refused linking w w' (
              ap
                (λ k. if k then (linking >> pure false) w else (check_limits v offer b user ids, w))
                (sym n)
              ∙ h)) [ ]
        | inr n ↦
            let q =
              ap
                (λ k. if k then (linking >> pure false) w else (check_limits v offer b user ids, w))
                (sym n)
              ∙ h in
            (IsEligible-limits user ids o c n (ap (λ r. r.0) q), sym (ap (λ r. r.1) q))
      ]

  IsEligible-ids :
      (user : User) (r : Result (Option (List ℕ))) (w w' : World)
      → b.owner ≡ some user
      → course_ids offer b.lines ≡ r
      → check_ids v offer b user r w ≡ (ok true, w')
      → IsEligible v offer b × (w' ≡ w)
  unfolding check_ids
  IsEligible-ids user (raised e) w w' o c h = cc
  IsEligible-ids user (ok none) w w' o c h = cc
  IsEligible-ids user (ok (some ids)) w w' o c h = IsEligible-user user ids w w' o c h

  owned_by :
      (owner : Option User) (w w' : World)
      → b.owner ≡ owner
      → (elim owner as (λ o. Result Bool × World) [
        | none ↦ (ok false, w)
        | some user ↦ check_ids v offer b user (course_ids offer b.lines) w
      ])
        ≡ (ok true, w')
      → IsEligible v offer b × (w' ≡ w)
  owned_by none w w' o h = cc
  owned_by (some user) w w' o h = IsEligible-ids user (course_ids offer b.lines) w w' o refl h

  -- Whenever the condition is satisfied, the basket has an owner, its course ids can be told, the
  -- owner is of no other enterprise than the condition's, the basket's catalog (if it has one) is the
  -- condition's and the condition's catalog has the courses. If the offer has the priority of
  -- enterprise offers, the basket's discount keeps all discounts of the offer within its limit, and
  -- the owner's within the limit for one user. Nothing is written.
  pub is_satisfied-IsEligible :
      (w w' : World) → is_satisfied v offer b w ≡ (ok true, w') → IsEligible v offer b × (w' ≡ w)
  unfolding is_satisfied
  is_satisfied-IsEligible w w' h = owned_by b.owner w w' refl h
