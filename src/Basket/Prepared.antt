-- ===== src/Basket/Prepared.antt =====
-- What `prepare_basket` leaves in the basket, on every path.
use edx_ecommerce.Base.{
  one_of, and_false, ℕ, none, sym, ltb, refl, ⊤, ◌⊎◌, some, ◌≤◌, ◌≡◌, ap, ◌∙◌, Bool, true, false,
  not, ◌&&◌, ◌||◌, Option, List, [], ◌∷◌, if◌then◌else◌, any, all, length, Bool-cases, inl, inr,
  arith,
}
use edx_ecommerce.Base.Action.{
  Result, Result-cases, ok, raised, Exc, attribute_error, already_placed_order,
}
use mathlib.Core.Path.{subst}
use mathlib.Core.Bool.{and-eq-true_iff}
use edx_ecommerce.Basket.Rows.{Program, Product, Voucher, Basket, Request, Services, OscarLaws}
use edx_ecommerce.Basket.Prepare.{
  basket_add_enterprise_catalog_attribute, flush, clear_vouchers, set_basket_bundle_status,
  is_duplicate_seat_attempt, Added, add_products, apply_voucher_on_basket_and_check_discount,
  set_voucher, finish, is_empty, is_placed, fill, then_fill, properties_of, flush_lines,
  bundle_properties, track_bundle, track_removal, prepare_basket,
}

abbrev pub is_true : Result Bool → Bool
is_true (ok b) = b
is_true (raised e) = false

-- The check says that the user bought the product before, and it is no enrollment code.
abbrev pub is_repurchase : Services → Product → Bool
is_repurchase v p = not p.is_enrollment_code_product && is_true (v.already_placed p)

set_voucher-products :
    (v : Services) (q : Request) (products : List Product) (u : Option Voucher) (b : Basket)
    → (set_voucher v q products u b).products ≡ b.products
unfolding set_voucher clear_vouchers apply_voucher_on_basket_and_check_discount
set_voucher-products v q products u b = ground arith

set_voucher-vouchers :
    (v : Services) (q : Request) (products : List Product) (u : Option Voucher) (b : Basket)
    → length b.vouchers ≤ 1
    → length (set_voucher v q products u b).vouchers ≤ 1
unfolding set_voucher clear_vouchers apply_voucher_on_basket_and_check_discount
set_voucher-vouchers v q products u b h = ground arith

emptied-vouchers :
    (q : Request) (b : Basket)
    → length b.vouchers ≤ 1
    → length (set_basket_bundle_status q.bundle b).vouchers ≤ 1
unfolding set_basket_bundle_status clear_vouchers
emptied-vouchers q b h = ground arith

flush-vouchers : (v : Services) (b : Basket) → (flush v b).1.vouchers ≡ b.vouchers
unfolding flush
flush-vouchers v b = ground arith

finish-vouchers :
    (v : Services) (q : Request) (products : List Product) (u : Option Voucher) (a : Added)
    (b : Basket)
    → length b.vouchers ≤ 1
    → length (finish v q products u a b).1.vouchers ≤ 1
unfolding finish
finish-vouchers v q products u a b h =
    ground (arith, set_voucher-vouchers v q products u (record b { products = a.products }) h)

then_fill-vouchers :
    (v : Services) (q : Request) (products : List Product) (u : Option Voucher)
    (r : Result ⊤ × Basket)
    → length r.1.vouchers ≤ 1
    → length (then_fill v q products u r).1.vouchers ≤ 1
then_fill-vouchers v q products u (raised e, b) h = h
then_fill-vouchers v q products u (ok x, b) h =
    let e = set_basket_bundle_status q.bundle b in
    let a = add_products v products false e.products in
    one_of (q.enable_embargo_check && not (v.embargo_check products)) (ok tt, e)
      (finish v q products u a e) (λ x. length x.1.vouchers ≤ 1) (emptied-vouchers q b h)
      (finish-vouchers v q products u a e (emptied-vouchers q b h))

-- A basket with at most one voucher has at most one when `prepare_basket` returns or raises.
pub prepare_basket-one_voucher :
    (v : Services) (q : Request) (products : List Product) (u : Option Voucher) (b : Basket)
    → length b.vouchers ≤ 1
    → length (prepare_basket v q products u b).1.vouchers ≤ 1
unfolding prepare_basket basket_add_enterprise_catalog_attribute
prepare_basket-one_voucher v q products u b h =
    let c = basket_add_enterprise_catalog_attribute q b in
    then_fill-vouchers v q products u (flush v c)
      (subst (λ us. length us ≤ 1) (sym (flush-vouchers v c)) h)

-- The lookup of the program raises, or finds none, or one that `program.get` raises for.
abbrev pub gives_properties : Result (Option Program) → Bool
gives_properties (ok (some p)) = not p.type_attrs_is_null
gives_properties _ = false

not_placed :
    (enrollment_code : Bool) (r : Result Bool)
    → (if enrollment_code then ok false else r) ≡ ok false
    → (not enrollment_code && is_true r) ≡ false
not_placed true r k = refl
not_placed false r k = ap is_true k

repurchased :
    (enrollment_code : Bool) (r : Result Bool)
    → (not enrollment_code && is_true r) ≡ true
    → (if enrollment_code then ok false else r) ≡ ok true
repurchased true r h = cc
repurchased false (ok b) h = ap ok h
repurchased false (raised e) h = cc

-- The products are not what the status of the bundle changes.
status-products :
    (q : Request) (b : Basket)
    → record (set_basket_bundle_status q.bundle (record b { products = [] })) { products = [] }
      ≡ record (set_basket_bundle_status q.bundle b) { products = [] }
unfolding set_basket_bundle_status clear_vouchers
status-products q b = ground arith

-- What the events of the old products come to.
abbrev Raises : Services → Option ℕ → (priced : Bool) → Result ⊤ → Type 0
Raises v x priced r =
    (e : Exc) × (bundle : ℕ) × (x ≡ some bundle)
    × (priced ≡ true)
    × (gives_properties (v.get_program bundle) ≡ false)
    × (r ≡ raised e)

properties-cases :
    (r : Result (Option Program))
    → (properties_of r ≡ ok tt)
      ⊎ ((e : Exc) × (gives_properties r ≡ false) × (properties_of r ≡ raised e))
properties-cases (raised e) = inr (e, refl, refl)
properties-cases (ok none) = inr (_, refl, refl)
properties-cases (ok (some p)) = elim (Bool-cases p.type_attrs_is_null) [
  | inl e ↦ inr (attribute_error, rw e refl, rw e refl)
  | inr e ↦ inl (rw e refl)
]

track-cases :
    (v : Services) (priced : Bool) (x : Option ℕ)
    → ((if priced then track_bundle v x else ok tt) ≡ ok tt)
      ⊎ Raises v x priced (if priced then track_bundle v x else ok tt)
unfolding bundle_properties
track-cases v false x = inl refl
track-cases v true none = inl refl
track-cases v true (some bundle) = elim (properties-cases (v.get_program bundle)) [
  | inl k ↦ inl k
  | inr (e, g, k) ↦ inr (e, bundle, refl, refl, g, k)
]

flush_by :
    (v : Services) (b : Basket)
    → v.is_temporary ≡ false
    → flush v b ≡ flush_lines v b (track_removal v b)
unfolding flush
flush_by v b n = ap (λ t. if t then (ok tt, b) else flush_lines v b (track_removal v b)) n

module _ (v : Services) (laws : OscarLaws v) where
  add_products-new :
      (products : List Product) (already : Bool) (ps : List Product)
      → any (is_repurchase v) ps ≡ false
      → any (is_repurchase v) (add_products v products already ps).products ≡ false
  unfolding add_products
  add_products-new [] already ps h = h
  add_products-new (p ∷ rest) already ps h = elim (Bool-cases (is_duplicate_seat_attempt v ps p)) [
    | inl d ↦ rw (add_products, d) h
    | inr d ↦ elim (Result-cases (is_placed v p)) [
      | inl (true, k) ↦ rw (add_products, d, k) (add_products-new rest true ps h)
      | inl (false, k) ↦
          rw (add_products, d, k)
            (add_products-new rest already (v.add_product p ps) (
              laws.adds (is_repurchase v) p ps
              ∙ ap (λ b. b || any (is_repurchase v) ps)
                  (not_placed p.is_enrollment_code_product (v.already_placed p) k)
              ∙ h))
      | inr (e, k) ↦ rw (add_products, d, k) h
    ]
  ]

  emptied-products :
      (q : Request) (b : Basket) → (set_basket_bundle_status q.bundle b).products ≡ b.products
  unfolding set_basket_bundle_status clear_vouchers
  emptied-products q b = ground arith

  finish-products :
      (q : Request) (products : List Product) (u : Option Voucher) (a : Added) (b : Basket)
      → (finish v q products u a b).1.products ≡ a.products
  unfolding finish
  finish-products q products u a b =
      ground (arith, set_voucher-products v q products u (record b { products = a.products }))

  fill-new :
      (q : Request) (products : List Product) (u : Option Voucher) (b : Basket)
      → any (is_repurchase v) b.products ≡ false
      → any (is_repurchase v) (fill v q products u b).1.products ≡ false
  fill-new q products u b new =
      let a = add_products v products false b.products in
      one_of (q.enable_embargo_check && not (v.embargo_check products)) (ok tt, b)
        (finish v q products u a b) (λ x. any (is_repurchase v) x.1.products ≡ false) new
        (ap (any (is_repurchase v)) (finish-products q products u a b)
          ∙ add_products-new products false b.products new)

  -- The basket that `prepare_basket` flushes.
  abbrev pub to_flush : Request → Basket → Basket
  to_flush q b = record b { enterprise_catalog = q.catalog }

  -- With Oscar's laws and for a basket that is not temporary, when `prepare_basket` returns or
  -- raises: either the basket has no product of which `user_already_placed_order` answers that the
  -- user bought it before, but for enrollment codes; or the basket had a product with a price and a
  -- bundle, the lookup of the bundle's program raised, gave no program or one whose `type_attrs` is
  -- null, and `prepare_basket` raises and leaves all products and vouchers as they were.
  pub prepare_basket-new :
      (q : Request) (products : List Product) (u : Option Voucher) (b : Basket)
      → v.is_temporary ≡ false
      → (any (is_repurchase v) (prepare_basket v q products u b).1.products ≡ false)
        ⊎ ((e : Exc) × (bundle : ℕ) × (b.bundle ≡ some bundle)
            × (any (λ p. ltb 0 p.price) b.products ≡ true)
            × (gives_properties (v.get_program bundle) ≡ false)
            × (prepare_basket v q products u b ≡ (raised e, to_flush q b)))
  unfolding prepare_basket basket_add_enterprise_catalog_attribute
  prepare_basket-new q products u b n =
      let c = to_flush q b in
      let fills = then_fill v q products u in
      let status = set_basket_bundle_status q.bundle in
      let emptied = record c { products = v.flush b.products } in
      let flushed = ap fills (flush_by v c n) in
      elim (track-cases v (any (λ p. ltb 0 p.price) b.products) b.bundle) [
        | inl k ↦ inl (
            ap (λ x. any (is_repurchase v) x.1.products)
              (flushed ∙ ap (λ r. fills (flush_lines v c r)) k)
            ∙ fill-new q products u (status emptied)
                (ap (any (is_repurchase v)) (emptied-products q emptied ∙ laws.flushes b.products)))
        | inr (e, bundle, at, priced, g, k) ↦
            inr (e, bundle, at, priced, g, flushed ∙ ap (λ r. fills (flush_lines v c r)) k)
      ]

  placed_before : (p : Product) → is_repurchase v p ≡ true → is_placed v p ≡ ok true
  placed_before p h = repurchased p.is_enrollment_code_product (v.already_placed p) h

  add_products-none :
      (products : List Product) (already : Bool)
      → all (is_repurchase v) products ≡ true
      → add_products v products already [] ≡ record {
        stopped = ok false;
        already_purchased = already || not (is_empty products);
        products = [];
      }
  unfolding add_products is_duplicate_seat_attempt
  add_products-none [] already h = ground arith
  add_products-none (p ∷ rest) already h =
      let (h0, h1) = (and-eq-true_iff (is_repurchase v p) (all (is_repurchase v) rest)).0 h in
      rw (add_products, laws.has_none p, and_false p.is_seat_product, placed_before p h0)
        (add_products-none rest true h1 ∙ ground arith)

  -- With Oscar's laws, for a basket that is not temporary and whose flush raises nothing: if the
  -- embargo check lets the products pass, there is at least one, and the user bought each of them
  -- before and none is an enrollment code, then `prepare_basket` raises
  -- `AlreadyPlacedOrderException`, and the basket is empty.
  pub prepare_basket-already_placed :
      (q : Request) (p : Product) (rest : List Product) (u : Option Voucher) (b : Basket)
      → v.is_temporary ≡ false
      → track_removal v b ≡ ok tt
      → (q.enable_embargo_check && not (v.embargo_check (p ∷ rest))) ≡ false
      → all (is_repurchase v) (p ∷ rest) ≡ true
      → prepare_basket v q (p ∷ rest) u b ≡ (
        raised already_placed_order,
        record (set_basket_bundle_status q.bundle (to_flush q b)) { products = [] },
      )
  unfolding prepare_basket finish basket_add_enterprise_catalog_attribute
  prepare_basket-already_placed q p rest u b n r e h =
      let c = to_flush q b in
      let w = set_basket_bundle_status q.bundle (record c { products = [] }) in
      ap (then_fill v q (p ∷ rest) u) (
        flush_by v c n
        ∙ ap (flush_lines v c) r
        ∙ ap (λ ps. (ok tt, record c { products = ps })) (laws.flushes b.products))
      ∙ ap
          (λ x.
            if x
            then (ok tt, w)
            else finish v q (p ∷ rest) u (add_products v (p ∷ rest) false w.products) w)
          e
      ∙ ap (λ ps. finish v q (p ∷ rest) u (add_products v (p ∷ rest) false ps) w)
          (emptied-products q (record c { products = [] }))
      ∙ ap (λ a. finish v q (p ∷ rest) u a w) (add_products-none (p ∷ rest) false h)
      ∙ ap (λ x. (raised already_placed_order, x)) (status-products q c)
