-- ===== src/Refund/Offers.antt =====
-- What a refund takes back from the enterprise offers of its order.
use edx_ecommerce.Base.{
  ℕ, sym, ==→≡, ◌+◌, ◌≡◌, ◌≢◌, length, refl, ap, ◌∙◌, true, false, ◌&&◌, some, List, [], ◌∷◌,
  if◌then◌else◌, is_some, Bool-cases, inl, inr, arith, ◌==◌, All, sum_of,
}
use mathlib.Core.Option.{some-injective}
use edx_ecommerce.Base.Int.{ℤ, pos_part, neg_part, pos, ◌+ℤ◌, ◌-ℤ◌, int_laws}
use edx_ecommerce.Base.Action.{ok}
use edx_ecommerce.Offer.{ConditionalOffer, is_site}
use edx_ecommerce.Refund.{
  OrderDiscount, State, Services, credit_discounts, issue_credit_for_enterprise_offer, find_offer,
  save_offer, credit_offer,
}

credit_discounts-partial :
    (v : Services) (ds : List OrderDiscount) (os : List ConditionalOffer)
    → credit_discounts v false ds os ≡ os
unfolding credit_discounts
credit_discounts-partial v [] os = refl
credit_discounts-partial v (d ∷ ds) os = ground (arith, credit_discounts-partial v ds os)

-- A refund whose lines are not as many as its order has takes nothing back from any offer, and
-- changes nothing else.
pub issue_credit_for_enterprise_offer-partial :
    (v : Services) (s : State)
    → length s.refund.lines ≢ s.refund.order.num_lines
    → issue_credit_for_enterprise_offer v s ≡ (ok tt, s)
unfolding issue_credit_for_enterprise_offer
issue_credit_for_enterprise_offer-partial v s h =
    let e : (length s.refund.lines == s.refund.order.num_lines) ≡ false = ground (arith, h) in
    ap (λ b. (ok tt, record s { offers = credit_discounts v b s.refund.order.discounts s.offers }))
      e
    ∙ ap (λ os. (ok tt, record s { offers = os }))
        (credit_discounts-partial v s.refund.order.discounts s.offers)

-- The discounts' total over one offer.
abbrev pub amount_on : ℕ → OrderDiscount → ℕ
amount_on i d = if d.offer_id == i then d.amount else 0

find-save :
    (i : ℕ) (o : ConditionalOffer) (os : List ConditionalOffer)
    → is_some (find_offer o.id os) ≡ true
    → find_offer i (save_offer o os) ≡ (if o.id == i then some o else find_offer i os)
unfolding find_offer save_offer
find-save i o [] h = cc
find-save i o (p ∷ os) h = ground (arith, find-save i o os)

find-id :
    (i : ℕ) (os : List ConditionalOffer) {o : ConditionalOffer}
    → find_offer i os ≡ some o
    → o.id ≡ i
unfolding find_offer
find-id i [] e = cc
find-id i (p ∷ os) {o} e = ground (arith, find-id i os {o = o})

-- The discount's offer is there, and is an enterprise site offer.
abbrev pub IsCreditable : List ConditionalOffer → OrderDiscount → Type 0
IsCreditable os d =
    (o : ConditionalOffer) × (find_offer d.offer_id os ≡ some o)
    × ((is_site o.offer_type && is_some o.enterprise_customer_uuid) ≡ true)

module _ (d : OrderDiscount) (p : ConditionalOffer) (os : List ConditionalOffer)
    (found : find_offer d.offer_id os ≡ some p)
    (enterprise : (is_site p.offer_type && is_some p.enterprise_customer_uuid) ≡ true) where
  -- The offers once the discount is taken back.
  abbrev credited_offers : List ConditionalOffer
  credited_offers = save_offer (credit_offer d p) os

  find-credited :
      (i : ℕ)
      → find_offer i credited_offers
        ≡ (if d.offer_id == i then some (credit_offer d p) else find_offer i os)
  find-credited i =
      let e = find-id d.offer_id os found in
      find-save i (credit_offer d p) os (rw (e, found) refl)
      ∙ ap (λ k. if k == i then some (credit_offer d p) else find_offer i os) e

  credit_step :
      (v : Services) (ds : List OrderDiscount)
      → ((o : ConditionalOffer) → v.saves_offer o ≡ true)
      → credit_discounts v true (d ∷ ds) os ≡ credit_discounts v true ds credited_offers
  unfolding credit_discounts
  credit_step v ds saves = rw (found, enterprise, saves (credit_offer d p), credit_discounts) refl

  IsCreditable-credited : (e : OrderDiscount) → IsCreditable os e → IsCreditable credited_offers e
  IsCreditable-credited e (o, f, c) = elim (Bool-cases (d.offer_id == e.offer_id)) [
    | inl same ↦ (credit_offer d p, find-credited e.offer_id ∙ rw same refl, enterprise)
    | inr other ↦ (o, find-credited e.offer_id ∙ rw other f, c)
  ]

  All-IsCreditable-credited :
      (es : List OrderDiscount) → All (IsCreditable os) es → All (IsCreditable credited_offers) es
  All-IsCreditable-credited [] h = tt
  All-IsCreditable-credited (e ∷ es) h =
      (IsCreditable-credited e h.0, All-IsCreditable-credited es h.1)

add_back : (x y : ℤ) (a r k : ℕ) → k ≡ a + r → x +ℤ pos r ≡ y -ℤ pos a → x +ℤ pos k ≡ y
add_back x y a r k e h = omega (int_laws, ap pos_part h, ap neg_part h)

amount_on_same : (i : ℕ) (d : OrderDiscount) → (d.offer_id == i) ≡ true → amount_on i d ≡ d.amount
amount_on_same i d e = rw e refl

amount_on_other : (i : ℕ) (d : OrderDiscount) → (d.offer_id == i) ≡ false → amount_on i d ≡ 0
amount_on_other i d e = rw e refl

keep_on : (x y : ℤ) (r k : ℕ) → k ≡ 0 → x +ℤ pos r ≡ y → x +ℤ pos (k + r) ≡ y
keep_on x y r k e h = omega (int_laws, ap pos_part h, ap neg_part h)

same_offer :
    (i : ℕ) (d : OrderDiscount) (os : List ConditionalOffer) (p o : ConditionalOffer)
    → (d.offer_id == i) ≡ true
    → find_offer d.offer_id os ≡ some p
    → find_offer i os ≡ some o
    → p ≡ o
same_offer i d os p o e f g =
    some-injective _ _ (sym f ∙ ap (λ k. find_offer k os) (==→≡ d.offer_id i e) ∙ g)

-- A refund of the whole order takes back, from each offer, exactly the discounts that the order had
-- from it, if every discount comes from an enterprise site offer and every offer can be saved.
pub credit_discounts-whole :
    (v : Services) (i : ℕ) (ds : List OrderDiscount) (os : List ConditionalOffer)
    (o : ConditionalOffer)
    → ((o : ConditionalOffer) → v.saves_offer o ≡ true)
    → All (IsCreditable os) ds
    → find_offer i os ≡ some o
    → (o' : ConditionalOffer) × (find_offer i (credit_discounts v true ds os) ≡ some o')
      × (o'.total_discount +ℤ pos (sum_of (amount_on i) ds) ≡ o.total_discount)
unfolding credit_discounts
credit_discounts-whole v i [] os o saves c found = (o, found, omega int_laws)
credit_discounts-whole v i (d ∷ ds) os o saves ((p, f, e), c) found =
    let rest = All-IsCreditable-credited d p os f e ds c in
    elim (Bool-cases (d.offer_id == i)) [
      | inl same ↦
          let (o', there, total) =
            credit_discounts-whole v i ds (credited_offers d p os f e) (credit_offer d p) saves rest
              (find-credited d p os f e i ∙ rw same refl) in
          (
            o',
            rw (credit_step d p os f e v ds saves) there,
            add_back o'.total_discount o.total_discount d.amount (sum_of (amount_on i) ds) _
                (ap (λ k. k + sum_of (amount_on i) ds) (amount_on_same i d same))
                (total
                  ∙ ap (λ (q : ConditionalOffer). q.total_discount -ℤ pos d.amount)
                      (same_offer i d os p o same f found)),
          )
      | inr other ↦
          let (o', there, total) =
            credit_discounts-whole v i ds (credited_offers d p os f e) o saves rest
              (find-credited d p os f e i ∙ rw other found) in
          (
            o',
            rw (credit_step d p os f e v ds saves) there,
            keep_on o'.total_discount o.total_discount (sum_of (amount_on i) ds) _
                (amount_on_other i d other) total,
          )
    ]
