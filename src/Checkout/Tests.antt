-- ===== src/Checkout/Tests.antt =====
-- Checkouts of a free basket at concrete inputs, and the theorems about them applied there.
use edx_ecommerce.Base.{◌≡◌, refl, true, false, none, some, [], ◌∷◌}
use edx_ecommerce.Base.Action.{ok, raised, type_error, not_free}
use edx_ecommerce.Fulfillment.{supports_line, OrderStatus, all_complete}
use edx_ecommerce.Fulfillment.Order.{Order}
use edx_ecommerce.Fulfillment.Outcome.{is_fulfillable}
use edx_ecommerce.Fulfillment.Tests.{services, services-Succeeds, order}
use edx_ecommerce.Order.Tests.{shipping}
use edx_ecommerce.Voucher.{Usage, VoucherOffer, Voucher, enterprise_offer}
use edx_ecommerce.Voucher.Tests.{voucher, voucher_offer, enterprise}
use edx_ecommerce.Checkout.{Tables, fresh}
use edx_ecommerce.Checkout.Counter.{uses_in, redeem_codes, redeem_codes-use_codes}
use edx_ecommerce.Checkout.Placement.{BasketStatus, Store, Checkout, place_free_order}
use edx_ecommerce.Checkout.Complete.{place_free_order-complete, place_free_order-unlimited}

-- Another customer has one of the five uses.
abbrev tables : Tables
tables = record { assignments = fresh 4 99 21 ∷ []; nudges = [] }

-- The customer with the e-mail address 22 orders twice.
redeem_codes-use_codes_example :
    ((redeem_codes (some (voucher Usage.multi_use_per_customer)) 22 (some 1 ∷ some 2 ∷ []) tables).0
      ≡ ok tt)
    × (uses_in 4 99 22
          (redeem_codes
            (some (voucher Usage.multi_use_per_customer))
            22
            (some 1 ∷ some 2 ∷ [])
            tables).1.assignments
        ≡ (record { issued = 5; left = 3 }))
unfolding enterprise_offer
redeem_codes-use_codes_example =
    redeem_codes-use_codes (voucher Usage.multi_use_per_customer) 22 5 voucher_offer refl refl refl
      (some 1 ∷ some 2 ∷ []) tables

abbrev unlimited_offer : VoucherOffer
unlimited_offer = record voucher_offer {
  offer = record enterprise { max_global_applications = none };
}

abbrev unlimited : Voucher
unlimited = record (voucher Usage.multi_use_per_customer) {
  offers = unlimited_offer ∷ [];
  by_date = unlimited_offer ∷ [];
}

abbrev checkout : Voucher → Checkout
checkout u = record {
  total_incl_tax = 0;
  owner_email = 22;
  voucher = some u;
  application = some 1;
  email_opt_in = ok tt;
  is_async = false;
  freeze = λ b. ok BasketStatus.frozen;
  submit = λ b. ok BasketStatus.submitted;
  place_order = ok order;
  services = services;
  shipping = shipping;
}

abbrev store : Store
store = record {
  basket_status = BasketStatus.opened;
  tables = tables;
  order = none;
  events = [];
  tasks = 0;
}

place_free_order-complete_example :
    (after : Store) × (fulfilled : Order) × (place_free_order
        (checkout (voucher Usage.multi_use_per_customer))
        store
      ≡ (ok tt, after))
    × (after.basket_status ≡ BasketStatus.submitted)
    × (after.order ≡ some fulfilled)
    × (fulfilled.status ≡ OrderStatus.complete)
    × (all_complete fulfilled.lines ≡ true)
unfolding enterprise_offer is_fulfillable supports_line
place_free_order-complete_example =
    place_free_order-complete (checkout (voucher Usage.multi_use_per_customer)) store order refl
      refl refl refl refl refl refl services-Succeeds refl refl refl refl refl

place_free_order-unlimited_example : place_free_order (checkout unlimited) store ≡ (
  raised type_error,
  record store { basket_status = BasketStatus.submitted; order = some order },
)
unfolding enterprise_offer
place_free_order-unlimited_example =
    place_free_order-unlimited (checkout unlimited) store order refl refl refl refl refl unlimited
      unlimited_offer refl refl refl refl

not_free_raises :
    (place_free_order (record (checkout unlimited) { total_incl_tax = 100 }) store)
    ≡ (raised not_free, store)
unfolding place_free_order
not_free_raises = refl
