-- ===== src/Basket/Prepare.antt =====
-- `prepare_basket` of ecommerce/extensions/basket/utils.py with what it calls there, and
-- `Basket.flush` and `Basket.clear_vouchers` of models.py. The referral that `attribute_cookie_data`
-- records is left out, and of the tracking of products and bundles all but what the lookup of the
-- program raises.
use edx_ecommerce.Base.{
  ℕ, Bool, true, false, not, ◌&&◌, ◌||◌, Option, none, some, List, [], ◌∷◌, ◌==◌, if◌then◌else◌,
  is_some, any, ltb, ⊤,
}
use edx_ecommerce.Base.Action.{Result, ok, raised, already_placed_order, attribute_error, Action}
use edx_ecommerce.Basket.Rows.{Program, Product, Voucher, Basket, Request, Services}

unfoldable pub basket_add_enterprise_catalog_attribute : Request → Basket → Basket
basket_add_enterprise_catalog_attribute q b = record b { enterprise_catalog = q.catalog }

-- The properties of a bundle's event: without a program, `program.get` raises.
abbrev pub properties_of : Result (Option Program) → Result ⊤
properties_of (raised e) = raised e
properties_of (ok none) = raised attribute_error
properties_of (ok (some p)) = if p.type_attrs_is_null then raised attribute_error else ok tt

unfoldable pub bundle_properties : Services → (bundle : ℕ) → Result ⊤
bundle_properties v bundle = properties_of (v.get_program bundle)

-- The event of a bundle, for a basket or a request that has one.
abbrev pub track_bundle : Services → Option ℕ → Result ⊤
track_bundle v none = ok tt
track_bundle v (some bundle) = bundle_properties v bundle

-- The bundle is only looked up where an event for a product was sent.
abbrev pub track_removal : Services → Basket → Result ⊤
track_removal v b = if any (λ p. ltb 0 p.price) b.products then track_bundle v b.bundle else ok tt

-- `super().flush()`, which is not reached when the events raise.
abbrev pub flush_lines : Services → Basket → Result ⊤ → Result ⊤ × Basket
flush_lines v b (raised e) = (raised e, b)
flush_lines v b (ok u) = (ok tt, record b { products = v.flush b.products })

-- A temporary basket is not flushed.
unfoldable pub flush : Services → Action Basket ⊤
unfolding bundle_properties
flush v b = if v.is_temporary then (ok tt, b) else flush_lines v b (track_removal v b)

unfoldable pub clear_vouchers : Basket → Basket
clear_vouchers b = record b { vouchers = [] }

unfoldable pub set_basket_bundle_status : Option ℕ → Basket → Basket
unfolding clear_vouchers
set_basket_bundle_status none b = record b { bundle = none }
set_basket_bundle_status (some bundle) b = clear_vouchers (record b { bundle = some bundle })

unfoldable pub is_duplicate_seat_attempt : Services → List Product → Product → Bool
is_duplicate_seat_attempt v ps p = p.is_seat_product && v.has_product p ps

-- Whether the product was placed before; of an enrollment code this is not asked.
abbrev pub is_placed : Services → Product → Result Bool
is_placed v p = if p.is_enrollment_code_product then ok false else v.already_placed p

-- What the loop over the products leaves: whether it returned early, or what it raised, and whether
-- any product was purchased before.
pub record Added : Type 0 where
  pub stopped : Result Bool
  pub already_purchased : Bool
  pub products : List Product

unfoldable pub add_products : Services → List Product → (already : Bool) → List Product → Added
unfolding is_duplicate_seat_attempt
add_products v [] already ps = record {
  stopped = ok false;
  already_purchased = already;
  products = ps;
}
add_products v (p ∷ rest) already ps = elim (is_duplicate_seat_attempt v ps p) [
  | true ↦ record { stopped = ok true; already_purchased = already; products = ps }
  | false ↦ elim (is_placed v p) [
    | ok placed ↦ elim placed [
      | false ↦ add_products v rest already (v.add_product p ps)
      | true ↦ add_products v rest true ps
    ]
    | raised e ↦ record { stopped = raised e; already_purchased = already; products = ps }
  ]
]

abbrev pub is_other : Option ℕ → ℕ → Bool
is_other none p = false
is_other (some q) p = not (p == q)

-- Whether the voucher may be used; the message is left out.
unfoldable pub validate_voucher : Request → Voucher → Basket → Bool
validate_voucher q u b =
    if u.is_expired
    then false
    else if not u.is_active
    then false
    else if not u.is_available_to_user
    then false
    else if is_other u.partner q.partner
    then false
    else not (is_some b.bundle && not (is_some u.program_uuid || u.is_multi_use))

-- `vouchers.add`, which keeps a voucher that is there.
abbrev pub add_voucher : Voucher → List Voucher → List Voucher
add_voucher u us = if any (λ w. w.id == u.id) us then us else u ∷ us

unfoldable pub apply_voucher_on_basket_and_check_discount : Services → Voucher → Basket → Basket
unfolding clear_vouchers
apply_voucher_on_basket_and_check_discount v u b =
    let with_voucher = record b { vouchers = add_voucher u b.vouchers } in
    if v.gives_discount u with_voucher then with_voucher else clear_vouchers with_voucher

abbrev pub is_single_code : List Product → Bool
is_single_code (p ∷ []) = p.is_enrollment_code_product
is_single_code _ = false

-- `voucher or basket.vouchers.first()`
abbrev pub chosen : Option Voucher → List Voucher → Option Voucher
chosen (some u) us = some u
chosen none [] = none
chosen none (u ∷ us) = some u

unfoldable pub set_voucher : Services → Request → List Product → Option Voucher → Basket → Basket
unfolding clear_vouchers validate_voucher apply_voucher_on_basket_and_check_discount
set_voucher v q products voucher b =
    if is_single_code products then clear_vouchers b else elim (chosen voucher b.vouchers) [
      | none ↦ b
      | some u ↦
          if validate_voucher q u (clear_vouchers b)
          then apply_voucher_on_basket_and_check_discount v u (clear_vouchers b)
          else clear_vouchers b
    ]

abbrev pub is_empty : List Product → Bool
is_empty [] = true
is_empty (p ∷ ps) = false

-- What follows the loop over the products.
unfoldable pub finish : Services → Request → List Product → Option Voucher → Added → Action Basket ⊤
unfolding set_voucher bundle_properties
finish v q products voucher a b =
    let filled = record b { products = a.products } in
    elim a.stopped [
      | raised e ↦ (raised e, filled)
      | ok stopped ↦
          if stopped
          then (ok tt, filled)
          else if a.already_purchased && is_empty a.products
          then (raised already_placed_order, filled)
          else elim (track_bundle v q.bundle) [
            | raised e ↦ (raised e, filled)
            | ok u ↦ (ok tt, set_voucher v q products voucher filled)
          ]
    ]

-- What follows the flush.
abbrev pub fill : Services → Request → List Product → Option Voucher → Action Basket ⊤
fill v q products voucher b =
    if q.enable_embargo_check && not (v.embargo_check products)
    then (ok tt, b)
    else finish v q products voucher (add_products v products false b.products) b

abbrev pub then_fill :
    Services → Request → List Product → Option Voucher → Result ⊤ × Basket → Result ⊤ × Basket
then_fill v q products voucher (ok u, b) =
    fill v q products voucher (set_basket_bundle_status q.bundle b)
then_fill v q products voucher (raised e, b) = (raised e, b)

-- `basket` is the one that `get_basket` finds or creates.
unfoldable pub prepare_basket : Services → Request → List Product → Option Voucher → Action Basket ⊤
unfolding basket_add_enterprise_catalog_attribute flush set_basket_bundle_status add_products finish
prepare_basket v q products voucher basket =
    then_fill v q products voucher (flush v (basket_add_enterprise_catalog_attribute q basket))
