-- ===== src/Coupon/Attached.antt =====
-- The vouchers that `create_enterprise_vouchers` of ecommerce/extensions/voucher/utils.py makes, and
-- the offers that it attaches to them.
use edx_ecommerce.Base.{
  ℕ, zero, suc, ◌+◌, ◌≡◌, refl, ap, sym, ◌∙◌, true, false, is_some, List, [], ◌∷◌, ◌++◌, length,
  length-append, if◌then◌else◌, arith, and_false,
}
use mathlib.Core.List.{append-nil}
use edx_ecommerce.Base.Action.{ok, pure, call, ◌>>=◌, ◌>>◌}
use edx_ecommerce.Base.Bind.{>>=-returns}
use mathlib.Core.Path.{subst}
use edx_ecommerce.Voucher.{Usage}
use edx_ecommerce.Order.Text.{Text}
use edx_ecommerce.Coupon.Rows.{VoucherRow, Link, Store, Python}
use edx_ecommerce.Coupon.Create.{
  Batch, Created, from_offer, from_voucher, nothing_created, store_links, generate_offer_name,
  offer_at, create_new_voucher, create_loop, append, enterprise_link, is_single_use,
  create_vouchers_and_attach_offers, validate_voucher_fields,
}
use edx_ecommerce.Coupon.Enterprise.{
  set_offer, enterprise_offer_row, enterprise_offers, num_of_offers, create_enterprise_vouchers,
}
use edx_ecommerce.Coupon.Ends.{
  EndsWith, EndsWith->>=, IsPython, Unlinked, call-EndsWith, create_new_voucher-EndsWith,
  validate_voucher_fields-NoIndexError,
}
use edx_ecommerce.Coupon.Links.{
  names, own_links, own_links-append, offer_at-names, IsApart, own_links-IsApart,
}

num_of_offers_lem : (u : Usage) (q : ℕ) → is_single_use u ≡ false → num_of_offers u q ≡ q
num_of_offers_lem Usage.single_use q h = cc
num_of_offers_lem Usage.multi_use q h = refl
num_of_offers_lem Usage.once_per_customer q h = refl
num_of_offers_lem Usage.multi_use_per_customer q h = refl

module _ (y : Python) (python : IsPython y) (b : Batch) (links : List Link) where
  -- What the loop has after `i` rounds.
  abbrev IsLinked : (i : ℕ) → Created → Store → Type 0
  IsLinked i c s =
      (s.links ≡ links)
      × (length c.vouchers ≡ i)
      × (c.voucher_offers ≡ own_links b.offer_name 0 c.vouchers)
      × (c.enterprise_voucher_offers ≡ [])

  no_enterprise_link :
      (i : ℕ) (v : VoucherRow) (s : Store) → enterprise_link b [] i v s ≡ (ok [], s)
  no_enterprise_link i v s =
      ap
        (λ c.
          (if c
              then (call (offer_at [] i) >>= λ o.
                  pure (record { voucher = v.code; offer = o } ∷ []))
              else pure [])
            s)
        (and_false (is_some b.enterprise_customer))

  append-IsLinked :
      (i : ℕ) (c : Created) (t : Store) (v : VoucherRow)
      → t.links ≡ links
      → length c.vouchers ≡ i
      → c.voucher_offers ≡ own_links b.offer_name 0 c.vouchers
      → c.enterprise_voucher_offers ≡ []
      → IsLinked (suc i) (append c v (generate_offer_name b.offer_name i true) []) t
  append-IsLinked i c t v k len own alone = (
    k,
    length-append c.vouchers (v ∷ []) ∙ omega (arith, len),
    ap
          (λ ls.
            ls ++ record { voucher = v.code; offer = generate_offer_name b.offer_name i true } ∷ [])
          own
        ∙ ap
            (λ m.
              own_links b.offer_name 0 c.vouchers
              ++ record { voucher = v.code; offer = generate_offer_name b.offer_name m true } ∷ [])
            (omega (arith, len))
        ∙ sym (own_links-append b.offer_name 0 c.vouchers v),
    ap (λ ls. ls ++ []) alone,
  )

  create_loop-EndsWith :
      (q n i : ℕ) (c : Created) (s : Store)
      → i + n ≡ q
      → IsLinked i c s
      → EndsWith links (IsLinked q) (create_loop y b (names b.offer_name q 0) [] n i c s)
  unfolding create_loop
  create_loop-EndsWith q zero i c s e (h, len, own, alone) = (h, len ∙ omega (arith, e), own, alone)
  create_loop-EndsWith q (suc n) i c s e (h, len, own, alone) =
      let rest = create_loop y b (names b.offer_name q 0) [] n (suc i) in
      let offers = names b.offer_name q 0 in
      EndsWith->>= links (Unlinked y python b links) (IsLinked q) (create_new_voucher y b s)
        (from_voucher b offers [] i rest c) (create_new_voucher-EndsWith y python b links s h)
        (λ v t k.
          let o = generate_offer_name b.offer_name i true in
          let found = ap (λ r. (r, t)) (offer_at-names b.offer_name q i (omega (arith, e))) in
          let step : from_voucher b offers [] i rest c v t ≡ rest (append c v o []) t =
            >>=-returns (call (offer_at offers i)) (from_offer b [] i rest c v) found
            ∙ >>=-returns (enterprise_link b [] i v) (λ ls. rest (append c v o ls))
                (no_enterprise_link i v t) in
          subst (EndsWith links (IsLinked q)) (sym step) (
            create_loop-EndsWith q n (suc i) (append c v o []) t (omega (arith, e))
              (append-IsLinked i c t v k len own alone)))

  -- One voucher for each number, with one link to an offer of its own.
  abbrev IsOwned : (q : ℕ) → List VoucherRow → Store → Type 0
  IsOwned q vs t =
      (length vs ≡ q)
      × (t.links ≡ links ++ own_links b.offer_name 0 vs)
      × IsApart (own_links b.offer_name 0 vs)

  created-EndsWith :
      (q : ℕ) (s : Store)
      → s.links ≡ links
      → EndsWith links
          (IsOwned q)
          (create_vouchers_and_attach_offers y b (names b.offer_name q 0) [] q s)
  unfolding create_vouchers_and_attach_offers
  created-EndsWith q s h =
      EndsWith->>= links (IsLinked q) (IsOwned q)
        (create_loop y b (names b.offer_name q 0) [] q 0 nothing_created s) store_links
        (create_loop-EndsWith q q 0 nothing_created s (omega arith) (h, refl, refl, refl))
        (λ c t (k, len, own, alone). (
          len,
          ap (λ ls. t.links ++ c.voucher_offers ++ ls) alone
              ∙ append-nil (t.links ++ c.voucher_offers)
              ∙ ap (λ ls. ls ++ c.voucher_offers) k
              ∙ ap (λ ls. links ++ ls) own,
          own_links-IsApart b.offer_name 0 c.vouchers,
        ))

  enterprise_offers_lem :
      (n i : ℕ) (s : Store)
      → (t : Store) × (enterprise_offers b n i s ≡ (ok (names b.offer_name n i), t))
        × (t.links ≡ s.links)
  unfolding enterprise_offers
  enterprise_offers_lem zero i s = (s, refl, refl)
  enterprise_offers_lem (suc n) i s =
      let o = generate_offer_name b.offer_name i true in
      let s1 = set_offer (enterprise_offer_row b o) s in
      let (t, e, k) = enterprise_offers_lem n (suc i) s1 in
      (t, >>=-returns (enterprise_offers b n (suc i)) (λ os. pure (o ∷ os)) e, k)

  AreNames : (q : ℕ) → List Text → Store → Type 0
  AreNames q offers t = (offers ≡ names b.offer_name q 0) × (t.links ≡ links)

  offers-EndsWith :
      (q : ℕ) (s : Store)
      → is_single_use b.voucher_type ≡ false
      → s.links ≡ links
      → EndsWith links (AreNames q) (
          (call (validate_voucher_fields y b)
              >> enterprise_offers b (num_of_offers b.voucher_type q) 0)
            s)
  unfolding AreNames
  offers-EndsWith q s many h =
      let n = num_of_offers b.voucher_type q in
      EndsWith->>= links (Unlinked y python b links) (AreNames q)
        (call (validate_voucher_fields y b) s) (λ _. enterprise_offers b n 0)
        (call-EndsWith y python b links (validate_voucher_fields y b) s
          (validate_voucher_fields-NoIndexError y python b links) h)
        (λ u t k.
          let (t', e, k') = enterprise_offers_lem n 0 t in
          subst (EndsWith links (AreNames q)) (sym e)
            (ap (λ m. names b.offer_name m 0) (num_of_offers_lem b.voucher_type q many), k' ∙ k))

  created_all-EndsWith :
      (q : ℕ) (s : Store)
      → is_single_use b.voucher_type ≡ false
      → s.links ≡ links
      → EndsWith links (IsOwned q) (create_enterprise_vouchers y b q s)
  unfolding create_enterprise_vouchers AreNames
  created_all-EndsWith q s many h =
      EndsWith->>= links (AreNames q) (IsOwned q)
        ((call (validate_voucher_fields y b)
            >> enterprise_offers b (num_of_offers b.voucher_type q) 0)
          s)
        (λ offers. create_vouchers_and_attach_offers y b offers [] q) (offers-EndsWith q s many h)
        (λ offers t (e, k).
          subst (λ os. EndsWith links (IsOwned q) (create_vouchers_and_attach_offers y b os [] q t))
            (sym e) (created-EndsWith q t k))

-- If the vouchers are not for a single use, and neither the parser of dates nor Oscar raise an
-- `IndexError`: `create_enterprise_vouchers` returns as many vouchers as it was asked for and
-- stores one link for each of them, in their order, to an offer of its own, no two of them to the
-- same offer; or it raises something else than an `IndexError` and stores no link.
pub create_enterprise_vouchers-own_links :
    (y : Python) (python : IsPython y) (b : Batch) (quantity : ℕ) (s : Store)
    → is_single_use b.voucher_type ≡ false
    → EndsWith s.links
        (λ vs t.
          (length vs ≡ quantity)
          × (t.links ≡ s.links ++ own_links b.offer_name 0 vs)
          × IsApart (own_links b.offer_name 0 vs))
        (create_enterprise_vouchers y b quantity s)
create_enterprise_vouchers-own_links y python b q s many =
    created_all-EndsWith y python b s.links q s many refl
