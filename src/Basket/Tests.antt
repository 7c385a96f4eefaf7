-- ===== src/Basket/Tests.antt =====
-- Runs of the baskets at concrete inputs, and the theorems about them applied there.
use edx_ecommerce.Base.{
  ◌⊎◌, ltb, ℕ, ◌≤◌, ◌≡◌, refl, true, false, none, some, [], ◌∷◌, ◌==◌, any, length, arith,
}
use edx_ecommerce.Base.Action.{ok, raised, Exc, attribute_error}
use edx_ecommerce.Basket.{Product, Voucher, Basket, Request, Services, OscarLaws}
use edx_ecommerce.Base.{List, ◌++◌, ◌+◌, keep}
use edx_ecommerce.Basket.Get
use edx_ecommerce.Basket.Get.{BasketRow, is_for, get_basket, get_basket-one}
use edx_ecommerce.Basket.Prepare.{prepare_basket}
use edx_ecommerce.Basket.Prepared.{
  is_repurchase, gives_properties, to_flush, prepare_basket-one_voucher, prepare_basket-new,
}

abbrev seat : ℕ → Product
seat i = record { id = i; price = 100; is_seat_product = true; is_enrollment_code_product = false }

abbrev voucher : Voucher
voucher = record {
  id = 9;
  is_expired = false;
  is_active = true;
  is_available_to_user = true;
  partner = some 1;
  program_uuid = none;
  is_multi_use = false;
}

-- The user has bought seat 1.
abbrev services : Services
services = record {
  flush = λ _. [];
  add_product = λ p ps. p ∷ ps;
  has_product = λ p ps. any (λ q. q.id == p.id) ps;
  is_temporary = false;
  embargo_check = λ _. true;
  already_placed = λ p. ok (p.id == 1);
  get_program = λ _. ok none;
  gives_discount = λ _ _. true;
}

services-OscarLaws : OscarLaws services
services-OscarLaws = record { flushes = λ _. refl; adds = λ _ _ _. refl; has_none = λ _. refl }

abbrev request : Request
request = record { catalog = none; bundle = none; partner = 1; enable_embargo_check = true }

abbrev basket : Basket
basket = record {
  products = seat 5 ∷ [];
  vouchers = record voucher { id = 8 } ∷ [];
  enterprise_catalog = some 3;
  bundle = some 4;
}

abbrev unbundled : Basket
unbundled = record basket { bundle = none }

-- Seat 1 is left out, seat 2 is added, and the new voucher takes the place of the old one.
prepared : prepare_basket services request (seat 1 ∷ seat 2 ∷ []) (some voucher) unbundled ≡ (
  ok tt,
  record {
    products = seat 2 ∷ [];
    vouchers = voucher ∷ [];
    enterprise_catalog = none;
    bundle = none;
  },
)
unfolding prepare_basket
prepared = refl

-- The program of the old bundle is not found: nothing is flushed.
not_prepared :
    prepare_basket services request (seat 2 ∷ []) (some voucher) basket
    ≡ (raised attribute_error, record basket { enterprise_catalog = none })
unfolding prepare_basket
not_prepared = refl

prepare_basket-one_voucher_example :
    length (prepare_basket services request (seat 1 ∷ seat 2 ∷ []) (some voucher) basket).1.vouchers
    ≤ 1
prepare_basket-one_voucher_example =
    prepare_basket-one_voucher services request (seat 1 ∷ seat 2 ∷ []) (some voucher) basket
      (omega arith)

prepare_basket-new_example :
    (any
        (is_repurchase services)
        (prepare_basket services request (seat 1 ∷ seat 2 ∷ []) (some voucher) basket).1.products
      ≡ false)
    ⊎ ((e : Exc) × (bundle : ℕ) × (some 4 ≡ some bundle)
        × (any (λ p. ltb 0 p.price) (seat 5 ∷ []) ≡ true)
        × (gives_properties (ok none) ≡ false)
        × (prepare_basket services request (seat 1 ∷ seat 2 ∷ []) (some voucher) basket
            ≡ (raised e, to_flush services services-OscarLaws request basket)))
prepare_basket-new_example =
    prepare_basket-new services services-OscarLaws request (seat 1 ∷ seat 2 ∷ []) (some voucher)
      basket refl

abbrev basket_row : (id : ℕ) → (lines : List ℕ) → BasketRow
basket_row i lines = record { id = i; site = 1; owner = 7; is_editable = true; lines = lines }

-- A merge that joins the lines.
abbrev merging : Get.Oscar
merging = record {
  merge = λ b stale. (
    record b { lines = b.lines ++ stale.lines },
    record stale { is_editable = false; lines = [] },
  );
  new_id = λ rows. length rows + 1;
}

merging-OscarLaws : Get.OscarLaws merging
merging-OscarLaws = record {
  stale_closed = λ b stale. refl;
  same_site = λ b stale. refl;
  same_owner = λ b stale. refl;
  stays_open = λ b stale. refl;
}

abbrev basket_rows : List BasketRow
basket_rows =
    basket_row 1 (10 ∷ []) ∷ record (basket_row 2 []) { owner = 8 } ∷ basket_row 3 (30 ∷ []) ∷ []

merged_lines : (get_basket merging 7 1 basket_rows).0.lines ≡ 10 ∷ 30 ∷ []
unfolding get_basket
merged_lines = refl

get_basket-one_example :
    keep (is_for 7 1) (get_basket merging 7 1 basket_rows).1
    ≡ (get_basket merging 7 1 basket_rows).0 ∷ []
get_basket-one_example = get_basket-one merging merging-OscarLaws 7 1 basket_rows
