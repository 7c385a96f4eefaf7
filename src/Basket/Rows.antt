-- ===== src/Basket/Rows.antt =====
-- Baskets, and what the preparation of one calls outside this repository.
use edx_ecommerce.Base.{ℕ, ◌≡◌, Bool, false, ◌||◌, Option, List, [], any}
use edx_ecommerce.Base.Action.{Result}

-- `price` is that of the product's stock record.
pub record Product : Type 0 where
  pub id : ℕ
  pub price : ℕ
  pub is_seat_product : Bool
  pub is_enrollment_code_product : Bool

-- A voucher, as far as a basket asks it; the user's availability and the best offer are looked up.
pub record Voucher : Type 0 where
  pub id : ℕ
  pub is_expired : Bool
  pub is_active : Bool
  pub is_available_to_user : Bool
  pub partner : Option ℕ
  pub program_uuid : Option ℕ
  pub is_multi_use : Bool

-- A basket: the products of its lines, its vouchers, and its attributes for the enterprise catalog
-- and the bundle.
pub record Basket : Type 0 where
  pub products : List Product
  pub vouchers : List Voucher
  pub enterprise_catalog : Option ℕ
  pub bundle : Option ℕ

pub record Request : Type 0 where
  pub catalog : Option ℕ
  pub bundle : Option ℕ
  pub partner : ℕ
  pub enable_embargo_check : Bool

-- A program, as far as the events of bundles need it: whether its `type_attrs` is null.
pub record Program : Type 0 where
  pub type_attrs_is_null : Bool

-- `already_placed` is `user_already_placed_order`, `get_program` that of
-- ecommerce/programs/utils.py. `flush`, `add_product` and `product_quantity` are those of Oscar's
-- `AbstractBasket`, on the products of the lines; `is_temporary` tells whether the request's cache
-- has the key of a temporary basket.
pub record Services : Type 0 where
  pub flush : List Product → List Product
  pub add_product : Product → List Product → List Product
  pub has_product : Product → List Product → Bool
  pub is_temporary : Bool
  pub embargo_check : List Product → Bool
  pub already_placed : Product → Result Bool
  pub get_program : ℕ → Result (Option Program)
  pub gives_discount : Voucher → Basket → Bool

-- What Oscar documents of them.
pub record OscarLaws (v : Services) : Type 0 where
  pub flushes : (ps : List Product) → v.flush ps ≡ []
  pub adds :
      (f : Product → Bool) (p : Product) (ps : List Product)
      → any f (v.add_product p ps) ≡ (f p || any f ps)
  pub has_none : (p : Product) → v.has_product p [] ≡ false
