-- ===== src/Basket/Get.antt =====
-- `Basket.get_basket` and `create_basket` of ecommerce/extensions/basket/models.py.
use edx_ecommerce.Base.{
  ℕ, ◌≡◌, refl, ap, ◌∙◌, Bool, true, false, ◌&&◌, Option, none, some, List, [], ◌∷◌, ◌++◌, ◌==◌,
  keep, Bool-cases, ◌⊎◌, inl, inr, arith, ==-refl, keep-append,
}

pub record BasketRow : Type 0 where
  pub id : ℕ
  pub site : ℕ
  pub owner : ℕ
  pub is_editable : Bool
  pub lines : List ℕ

-- Oscar's `merge` of a stale basket into one, which writes both rows, and the id of a new row.
pub record Oscar : Type 0 where
  pub merge : (basket stale : BasketRow) → BasketRow × BasketRow
  pub new_id : List BasketRow → ℕ

-- The stale basket is given the status `Merged`; the other one stays what it is but for its lines.
pub record OscarLaws (v : Oscar) : Type 0 where
  pub stale_closed : (b stale : BasketRow) → (v.merge b stale).1.is_editable ≡ false
  pub same_site : (b stale : BasketRow) → (v.merge b stale).0.site ≡ b.site
  pub same_owner : (b stale : BasketRow) → (v.merge b stale).0.owner ≡ b.owner
  pub stays_open : (b stale : BasketRow) → (v.merge b stale).0.is_editable ≡ b.is_editable

abbrev pub is_for : (user site : ℕ) → BasketRow → Bool
is_for user site b = (b.site == site) && ((b.owner == user) && b.is_editable)

-- The loop over the stale baskets, with the rows as it leaves them.
unfoldable pub merge_stale :
    Oscar → (user site : ℕ) → BasketRow → List BasketRow → BasketRow × List BasketRow
merge_stale v user site basket [] = (basket, [])
merge_stale v user site basket (b ∷ bs) = elim (is_for user site b) [
  | true ↦
      let (kept, stale) = v.merge basket b in
      let (last, rows) = merge_stale v user site kept bs in (last, stale ∷ rows)
  | false ↦ let (last, rows) = merge_stale v user site basket bs in (last, b ∷ rows)
]

abbrev pub create_basket : Oscar → (site user : ℕ) → List BasketRow → BasketRow
create_basket v site user rows = record {
  id = v.new_id rows;
  site = site;
  owner = user;
  is_editable = true;
  lines = [];
}

-- The first editable basket of the user, with the others merged into it, if there is one.
unfoldable pub merged :
    Oscar → (user site : ℕ) → List BasketRow → Option (BasketRow × List BasketRow)
unfolding merge_stale
merged v user site [] = none
merged v user site (b ∷ bs) = elim (is_for user site b) [
  | true ↦ let (last, rows) = merge_stale v user site b bs in some (last, last ∷ rows)
  | false ↦ elim (merged v user site bs) [ none ↦ none | some q ↦ some (q.0, b ∷ q.1) ]
]

abbrev pub or_created :
    Oscar
    → (user site : ℕ) → List BasketRow
    → Option (BasketRow × List BasketRow)
    → BasketRow × List BasketRow
or_created v user site rows (some q) = q
or_created v user site rows none = let b = create_basket v site user rows in (b, rows ++ b ∷ [])

unfoldable pub get_basket : Oscar → (user site : ℕ) → List BasketRow → BasketRow × List BasketRow
unfolding merged
get_basket v user site rows = or_created v user site rows (merged v user site rows)

module _ (v : Oscar) (laws : OscarLaws v) (user site : ℕ) where
  abbrev mine : List BasketRow → List BasketRow
  mine = keep (is_for user site)

  merge-is_for : (b stale : BasketRow) → is_for user site (v.merge b stale).0 ≡ is_for user site b
  merge-is_for b stale =
      ap
        (λ s.
          (s == site) && (((v.merge b stale).0.owner == user) && (v.merge b stale).0.is_editable))
        (laws.same_site b stale)
      ∙ ap (λ o. (b.site == site) && ((o == user) && (v.merge b stale).0.is_editable))
          (laws.same_owner b stale)
      ∙ ap (λ e. (b.site == site) && ((b.owner == user) && e)) (laws.stays_open b stale)

  stale-is_for : (b stale : BasketRow) → is_for user site (v.merge b stale).1 ≡ false
  stale-is_for b stale = ground (arith, laws.stale_closed b stale)

  -- No stale basket stays editable, and the basket stays the user's.
  Closed : BasketRow × List BasketRow → Type 0
  Closed q = (is_for user site q.0 ≡ true) × (mine q.1 ≡ [])

  merge_stale-Closed :
      (b : BasketRow) (bs : List BasketRow)
      → is_for user site b ≡ true
      → Closed (merge_stale v user site b bs)
  unfolding merge_stale Closed
  merge_stale-Closed b [] h = (h, refl)
  merge_stale-Closed b (c ∷ bs) h = elim (Bool-cases (is_for user site c)) [
    | inl e ↦
        let (own, closed) = merge_stale-Closed (v.merge b c).0 bs (merge-is_for b c ∙ h) in
        rw (merge_stale, e) (own, rw (stale-is_for b c) closed)
    | inr e ↦
        let (own, closed) = merge_stale-Closed b bs h in rw (merge_stale, e) (own, rw (e) closed)
  ]

  merged-one :
      (rows : List BasketRow)
      → ((merged v user site rows ≡ none) × (mine rows ≡ []))
        ⊎ ((q : BasketRow × List BasketRow) × (merged v user site rows ≡ some q)
            × (mine q.1 ≡ q.0 ∷ []))
  unfolding merged Closed
  merged-one [] = inl (refl, refl)
  merged-one (b ∷ bs) = elim (Bool-cases (is_for user site b)) [
    | inl e ↦
        let q = merge_stale v user site b bs in
        let (own, closed) = merge_stale-Closed b bs e in
        inr ((q.0, q.0 ∷ q.1), rw (merged, e) refl, rw (own) (ap (λ rows. q.0 ∷ rows) closed))
    | inr e ↦ elim (merged-one bs) [
      | inl (missing, empty) ↦ inl (rw (merged, e, missing) refl, rw (e) empty)
      | inr (q, found, one) ↦ inr ((q.0, b ∷ q.1), rw (merged, e, found) refl, rw (e) one)
    ]
  ]

  -- Where Oscar closes the basket that it merges into another one and leaves the other one its
  -- user, site and status: after `get_basket`, whether it finds no basket, one or many, the basket
  -- it returns is the only editable one of the user on the site.
  pub get_basket-one :
      (rows : List BasketRow)
      → keep (is_for user site) (get_basket v user site rows).1
        ≡ (get_basket v user site rows).0 ∷ []
  unfolding get_basket
  get_basket-one rows = elim (merged-one rows) [
    | inl (missing, empty) ↦
        let b = create_basket v site user rows in
        let own : is_for user site b ≡ true = ground (arith, ==-refl site, ==-refl user) in
        let alone : keep (is_for user site) (b ∷ []) ≡ b ∷ [] = rw (own) refl in
        rw (get_basket, missing)
          (keep-append (is_for user site) rows (b ∷ [])
            ∙ ap (λ bs. bs ++ keep (is_for user site) (b ∷ [])) empty
            ∙ alone)
    | inr (q, found, one) ↦ rw (get_basket, found) one
  ]
