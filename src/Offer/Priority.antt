-- ===== src/Offer/Priority.antt =====
-- The order of the offers of `Applicator.get_offers`, and which of them exclude each other.
use edx_ecommerce.Base.{
  any-append, ℕ, ◌≤◌, ◌≡◌, refl, ap, sym, ◌∙◌, Bool, true, false, not, ◌&&◌, ◌||◌, Option, none,
  some, List, [], ◌∷◌, ◌++◌, ◌==◌, ltb, if◌then◌else◌, any, keep, All, Bool-cases, inl, inr, arith,
}
use edx_ecommerce.Base.Action.{Result, ok, raised}
use edx_ecommerce.Offer.Rows.{ConditionalOffer, is_site}
use edx_ecommerce.Offer.Applicator.{
  Sources, is_equal, is_generic, get_site_offers, get_enterprise_offers, program_uuid_of,
  offers_of_program, get_program_offers, insert, sorted, is_empty, chain, get_offers,
}

abbrev pub has_priority : ℕ → ConditionalOffer → Bool
has_priority n o = o.priority == n

-- No offer has a higher priority than one before it.
abbrev pub Descending : List ConditionalOffer → Type 0
Descending [] = Unit
Descending (o ∷ os) = All (λ x. x.priority ≤ o.priority) os × Descending os

insert-below :
    (n : ℕ) (o : ConditionalOffer) (xs : List ConditionalOffer)
    → o.priority ≤ n
    → All (λ x. x.priority ≤ n) xs
    → All (λ x. x.priority ≤ n) (insert o xs)
insert-below n o [] h k = (h, tt)
insert-below n o (x ∷ xs) h (k, ks) = elim (Bool-cases (ltb o.priority x.priority)) [
  | inl e ↦ rw e (k, insert-below n o xs h ks)
  | inr e ↦ rw e (h, (k, ks))
]

below-All :
    (m n : ℕ) (xs : List ConditionalOffer)
    → m ≤ n
    → All (λ x. x.priority ≤ m) xs
    → All (λ x. x.priority ≤ n) xs
below-All m n [] h k = tt
below-All m n (x ∷ xs) h (k, ks) = (omega (arith, h, k), below-All m n xs h ks)

insert-Descending :
    (o : ConditionalOffer) (xs : List ConditionalOffer) → Descending xs → Descending (insert o xs)
insert-Descending o [] h = (tt, tt)
insert-Descending o (x ∷ xs) (h, hs) = elim (Bool-cases (ltb o.priority x.priority)) [
  | inl e ↦ rw e (insert-below x.priority o xs (ground arith) h, insert-Descending o xs hs)
  | inr e ↦ rw e ((ground arith, below-All x.priority o.priority xs (ground arith) h), (h, hs))
]

keep-insert :
    (n : ℕ) (o : ConditionalOffer) (xs : List ConditionalOffer)
    → keep (has_priority n) (insert o xs) ≡ keep (has_priority n) (o ∷ xs)
keep-insert n o [] = refl
keep-insert n o (x ∷ xs) = ground (arith, keep-insert n o xs)

pub sorted-Descending : (os : List ConditionalOffer) → Descending (sorted os)
sorted-Descending [] = tt
sorted-Descending (o ∷ os) = insert-Descending o (sorted os) (sorted-Descending os)

pub keep-sorted :
    (n : ℕ) (os : List ConditionalOffer)
    → keep (has_priority n) (sorted os) ≡ keep (has_priority n) os
keep-sorted n [] = refl
keep-sorted n (o ∷ os) =
    keep-insert n o (sorted os)
    ∙ ap (λ xs. if has_priority n o then o ∷ xs else xs) (keep-sorted n os)

any-insert :
    (f : ConditionalOffer → Bool) (o : ConditionalOffer) (xs : List ConditionalOffer)
    → any f (insert o xs) ≡ (f o || any f xs)
any-insert f o [] = refl
any-insert f o (x ∷ xs) = ground (arith, any-insert f o xs)

any-sorted :
    (f : ConditionalOffer → Bool) (os : List ConditionalOffer) → any f (sorted os) ≡ any f os
any-sorted f [] = refl
any-sorted f (o ∷ os) = any-insert f o (sorted os) ∙ ap (λ b. f o || b) (any-sorted f os)

neither :
    (f : ConditionalOffer → Bool) (xs ys : List ConditionalOffer)
    → any f xs ≡ false
    → any f ys ≡ false
    → any f (xs ++ ys) ≡ false
neither f xs ys h k = ground (arith, any-append f xs ys, h, k)

no_generic-program :
    (p : ℕ) (os : List ConditionalOffer)
    → any is_generic (keep (λ o. is_site o.offer_type && is_equal o.program_uuid p) os) ≡ false
no_generic-program p [] = refl
no_generic-program p (o ∷ os) = ground (arith, no_generic-program p os)

no_generic-enterprise :
    (e : ℕ) (os : List ConditionalOffer)
    → any is_generic (keep (λ o. is_site o.offer_type && is_equal o.enterprise_customer_uuid e) os)
      ≡ false
no_generic-enterprise e [] = refl
no_generic-enterprise e (o ∷ os) = ground (arith, no_generic-enterprise e os)

no_generic-offers_of_program :
    (v : Sources) (p : Option ℕ) → any is_generic (offers_of_program v p) ≡ false
no_generic-offers_of_program v none = refl
no_generic-offers_of_program v (some p) = no_generic-program p v.active

no_generic-by_enterprise :
    (v : Sources) (e : Option ℕ)
    → any is_generic (elim e as (λ e. List ConditionalOffer) [
      | none ↦ []
      | some e ↦ keep (λ o. is_site o.offer_type && is_equal o.enterprise_customer_uuid e) v.active
    ])
      ≡ false
no_generic-by_enterprise v none = refl
no_generic-by_enterprise v (some e) = no_generic-enterprise e v.active

no_generic-get_enterprise_offers : (v : Sources) → any is_generic (get_enterprise_offers v) ≡ false
unfolding get_enterprise_offers
no_generic-get_enterprise_offers v = no_generic-by_enterprise v v.enterprise_id

abbrev offers_in : Result (List ConditionalOffer) → List ConditionalOffer
offers_in (ok os) = os
offers_in (raised e) = []

no_generic-by_attributes :
    (v : Sources) (bundle_id : Option ℕ) (r : Result (List (Option ℕ)))
    → any is_generic (
        offers_in (elim r as (λ r. Result (List ConditionalOffer)) [
          | ok texts ↦ ok (offers_of_program v (program_uuid_of bundle_id texts))
          | raised e ↦ raised e
        ]))
      ≡ false
no_generic-by_attributes v bundle_id (ok texts) =
    no_generic-offers_of_program v (program_uuid_of bundle_id texts)
no_generic-by_attributes v bundle_id (raised e) = refl

no_generic-get_program_offers :
    (v : Sources) (bundle_id : Option ℕ)
    → any is_generic (offers_in (get_program_offers v bundle_id)) ≡ false
unfolding get_program_offers
no_generic-get_program_offers v bundle_id = no_generic-by_attributes v bundle_id v.bundle_attributes

module _ (v : Sources) (bundle_id : Option ℕ) (program_offers : List ConditionalOffer) where
  found :
      get_program_offers v bundle_id ≡ ok program_offers
      → get_offers v bundle_id ≡ ok (sorted (chain v program_offers))
  unfolding get_offers
  found h = rw (get_offers, h) refl

  -- If the program's offers can be looked up, `get_offers` returns a list in which no offer has a
  -- higher priority than one before it, and which has, for each priority, exactly the offers that
  -- were found, in the order in which they were found.
  pub get_offers-Descending :
      get_program_offers v bundle_id ≡ ok program_offers
      → (offers : List ConditionalOffer) × (get_offers v bundle_id ≡ ok offers)
        × Descending offers
        × ((n : ℕ) → keep (has_priority n) offers ≡ keep (has_priority n) (chain v program_offers))
  get_offers-Descending h =
      let found_offers = chain v program_offers in
      (
        sorted found_offers,
        found h,
        sorted-Descending found_offers,
        λ n. keep-sorted n found_offers,
      )

  no_generic-chain :
      get_program_offers v bundle_id ≡ ok program_offers
      → (not (is_empty program_offers) || not (is_empty (get_enterprise_offers v))) ≡ true
      → any is_generic (v.session_offers ++ v.basket_offers ++ v.user_offers) ≡ false
      → any is_generic (chain v program_offers) ≡ false
  no_generic-chain h some_found none_given =
      let rest : List ConditionalOffer =
        if not (is_empty program_offers) || not (is_empty (get_enterprise_offers v))
        then []
        else get_site_offers v in
      let none_left : any is_generic rest ≡ false =
        ap (λ b. any is_generic (if b then [] else get_site_offers v)) some_found in
      let none_of_program =
        ap (λ r. any is_generic (offers_in r)) (sym h)
        ∙ no_generic-get_program_offers v bundle_id in
      let given = v.session_offers ++ v.basket_offers ++ v.user_offers in
      let with_program = neither is_generic given program_offers none_given none_of_program in
      let with_enterprise =
        neither is_generic (given ++ program_offers) (get_enterprise_offers v) with_program
          (no_generic-get_enterprise_offers v) in
      neither is_generic (given ++ program_offers ++ get_enterprise_offers v) rest with_enterprise
        none_left

  -- If there are offers for the basket's program or for the user's enterprise, and none of the
  -- offers of the session, the basket and the user is a site offer for neither, then no such offer
  -- is returned.
  pub get_offers-exclusive :
      (offers : List ConditionalOffer)
      → get_program_offers v bundle_id ≡ ok program_offers
      → get_offers v bundle_id ≡ ok offers
      → (not (is_empty program_offers) || not (is_empty (get_enterprise_offers v))) ≡ true
      → any is_generic (v.session_offers ++ v.basket_offers ++ v.user_offers) ≡ false
      → any is_generic offers ≡ false
  get_offers-exclusive offers h g some_found none_given =
      ap (any is_generic) (ap offers_in (sym g ∙ found h))
      ∙ any-sorted is_generic (chain v program_offers)
      ∙ no_generic-chain h some_found none_given
