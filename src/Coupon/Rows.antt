-- ===== src/Coupon/Rows.antt =====
-- Vouchers and offers as the utilities of ecommerce/extensions/voucher/utils.py create them, and what
-- they call outside the repository.
use edx_ecommerce.Base.{ℕ, Bool, true, false, ◌&&◌, Option, List, [], ◌∷◌, ◌==◌, ⊤}
use edx_ecommerce.Base.Action.{Result}
use edx_ecommerce.Voucher.{Usage}
use edx_ecommerce.Order.Text.{Text}

-- Dates are seconds; a date that is given is a `datetime` or a text.
pub data Date : Type 0 where
  datetime : ℕ → Date
  text : ℕ → Date

pub record VoucherRow : Type 0 where
  pub name : Text
  pub code : Text
  pub usage : Usage
  pub start_datetime : ℕ
  pub end_datetime : ℕ

-- An offer of a coupon. `name` is what `update_or_create` finds it by, so it stands for the row. The
-- condition is the enterprise customer's, or none for the range of the coupon.
pub record OfferRow : Type 0 where
  pub name : Text
  pub max_global_applications : Option ℕ
  pub benefit_value : ℕ
  pub enterprise_customer : Option ℕ
  pub email_domains : Option ℕ

-- A row of `VoucherOffer`: the voucher's code and the offer's name.
pub record Link : Type 0 where
  pub voucher : Text
  pub offer : Text

-- The tables, and how many random codes were drawn.
pub record Store : Type 0 where
  pub offers : List OfferRow
  pub vouchers : List VoucherRow
  pub links : List Link
  pub drawn : ℕ

-- `random_code` gives the characters of the code that is drawn, `parse` is that of `dateutil`,
-- `insert` Oscar's own validation and the write, `recursion_limit` the depth at which Python
-- raises, and `is_alnum` tells letters and digits.
pub record Python : Type 0 where
  pub random_code : (drawn : ℕ) → Text
  pub code_length : ℕ
  pub recursion_limit : ℕ
  pub parse : ℕ → Result ℕ
  pub insert : VoucherRow → List VoucherRow → Result ⊤
  pub is_alnum : ℕ → Bool

abbrev pub same_text : Text → Text → Bool
same_text [] [] = true
same_text [] (d ∷ t) = false
same_text (c ∷ s) [] = false
same_text (c ∷ s) (d ∷ t) = (c == d) && same_text s t
