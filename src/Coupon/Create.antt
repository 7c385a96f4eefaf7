-- ===== src/Coupon/Create.antt =====
-- `validate_voucher_fields`, `generate_offer_name`, `create_new_voucher` and
-- `create_vouchers_and_attach_offers` of ecommerce/extensions/voucher/utils.py.
use edx_ecommerce.Base.{
  ℕ, zero, suc, ◌-◌, Bool, true, false, not, ◌&&◌, Option, none, some, List, [], ◌∷◌, ◌++◌, ◌==◌,
  is_some, length, if◌then◌else◌, ⊤,
}
use edx_ecommerce.Base.Action.{
  Action, Result, ok, raised, Exc, validation_error, attribute_error, value_error, type_error,
  index_error, pure, call, ◌>>=◌, ◌>>◌,
}
use edx_ecommerce.Voucher.{Usage}
use edx_ecommerce.Order.Text.{Text, digits}
use edx_ecommerce.Payment.Truncate.{take}
use edx_ecommerce.Coupon.Rows.{Date, datetime, text, VoucherRow, Link, Store, Python}
use edx_ecommerce.Coupon.Clean.{both, save}
use edx_ecommerce.Coupon.Code.{generate_code_string}

-- What all vouchers of a coupon share. `offer_name` is the text that the coupon, the type and the
-- value of the benefit give.
pub record Batch : Type 0 where
  pub code : Option Text
  pub name : Text
  pub start_datetime : Option Date
  pub end_datetime : Option Date
  pub voucher_type : Usage
  pub max_uses : Option ℕ
  pub is_percentage : Bool
  pub benefit_value : ℕ
  pub enterprise_customer : Option ℕ
  pub email_domains : Option ℕ
  pub offer_name : Text

abbrev pub is_parse_error : Exc → Bool
is_parse_error attribute_error = true
is_parse_error value_error = true
is_parse_error type_error = true
is_parse_error _ = false

abbrev pub to_validation : Result ℕ → Result ⊤
to_validation (ok d) = ok tt
to_validation (raised e) = if is_parse_error e then raised validation_error else raised e

abbrev pub validate_date : Python → Option Date → Result ⊤
validate_date y none = raised validation_error
validate_date y (some (datetime d)) = ok tt
validate_date y (some (text t)) = to_validation (y.parse t)

abbrev pub is_single_use : Usage → Bool
is_single_use Usage.single_use = true
is_single_use _ = false

-- Python's truth of a code.
abbrev pub has_text : Option Text → Bool
has_text none = false
has_text (some []) = false
has_text (some (c ∷ code)) = true

-- `max_uses` is a number, so `int(max_uses)` gives it back.
unfoldable pub validate_voucher_fields : Python → Batch → Result ⊤
validate_voucher_fields y b =
    if is_some b.max_uses && is_single_use b.voucher_type
    then raised validation_error
    else if b.is_percentage && ((b.benefit_value == 100) && has_text b.code)
    then raised validation_error
    else both (validate_date y b.end_datetime) (validate_date y b.start_datetime)

-- " ENT Offer"
abbrev pub enterprise_suffix : Text
enterprise_suffix = 32 ∷ b'E' ∷ b'N' ∷ b'T' ∷ 32 ∷ b'O' ∷ b'f' ∷ b'f' ∷ b'e' ∷ b'r' ∷ []

-- `base` and, unless `offer_number` is 0, " [number]".
abbrev pub numbered : (base number : Text) → Text
numbered base number = base ++ (32 ∷ b'[' ∷ (number ++ b']' ∷ []))

unfoldable pub generate_offer_name :
    (base : Text) → (offer_number : ℕ) → (is_enterprise : Bool) → Text
unfolding digits
generate_offer_name base n is_enterprise =
    (if n == 0 then base else numbered base (digits n))
    ++ (if is_enterprise then enterprise_suffix else [])

abbrev pub code_or_new : Python → Option Text → Action Store Text
code_or_new y none = generate_code_string y
code_or_new y (some []) = generate_code_string y
code_or_new y (some (c ∷ code)) = pure (c ∷ code)

-- A date that is missing is no text, and the parser raises a `TypeError`.
abbrev pub parse_date : Python → Option Date → Result ℕ
parse_date y none = raised type_error
parse_date y (some (datetime d)) = ok d
parse_date y (some (text t)) = y.parse t

-- `Voucher.objects.create`
abbrev pub insert_voucher : Python → VoucherRow → Action Store VoucherRow
insert_voucher y v = save y v >> pure v

unfoldable pub voucher_row : Batch → (code : Text) → (start end : ℕ) → VoucherRow
unfolding take
voucher_row b code start end = record {
  name = take (128 - length code) b.name ++ code;
  code = code;
  usage = b.voucher_type;
  start_datetime = start;
  end_datetime = end;
}

-- `create_new_voucher` once it has the start date, and once it has the code.
abbrev pub from_start : Python → Batch → Text → (start : ℕ) → Action Store VoucherRow
from_start y b code start =
    call (parse_date y b.end_datetime) >>= λ end. insert_voucher y (voucher_row b code start end)

abbrev pub from_code : Python → Batch → Text → Action Store VoucherRow
from_code y b code = call (parse_date y b.start_datetime) >>= from_start y b code

unfoldable pub create_new_voucher : Python → Batch → Action Store VoucherRow
unfolding generate_code_string voucher_row save
create_new_voucher y b = code_or_new y b.code >>= from_code y b

-- `xs[i]`
unfoldable pub nth : List Text → ℕ → Result Text
nth [] i = raised index_error
nth (x ∷ xs) zero = ok x
nth (x ∷ xs) (suc i) = nth xs i

-- `xs[i] if len(xs) > 1 else xs[0]`
abbrev pub offer_at : List Text → ℕ → Result Text
offer_at [] i = nth [] 0
offer_at (x ∷ []) i = ok x
offer_at (x ∷ z ∷ xs) i = nth (x ∷ z ∷ xs) i

abbrev pub is_empty : List Text → Bool
is_empty [] = true
is_empty (x ∷ xs) = false

-- The lists `voucher_offers`, `enterprise_voucher_offers` and `vouchers`.
pub record Created : Type 0 where
  pub voucher_offers : List Link
  pub enterprise_voucher_offers : List Link
  pub vouchers : List VoucherRow

abbrev pub enterprise_link : Batch → List Text → ℕ → VoucherRow → Action Store (List Link)
enterprise_link b offers i v =
    if is_some b.enterprise_customer && not (is_empty offers)
    then (call (offer_at offers i) >>= λ o. pure (record { voucher = v.code; offer = o } ∷ []))
    else pure []

abbrev pub append : Created → VoucherRow → Text → List Link → Created
append c v o links = record {
  voucher_offers = c.voucher_offers ++ record { voucher = v.code; offer = o } ∷ [];
  enterprise_voucher_offers = c.enterprise_voucher_offers ++ links;
  vouchers = c.vouchers ++ v ∷ [];
}

-- One round once it has the offer, and once it has the voucher.
abbrev pub from_offer :
    Batch
    → (enterprise_offers : List Text) → (i : ℕ) → (rest : Created → Action Store Created) → Created
    → VoucherRow
    → Text
    → Action Store Created
from_offer b enterprise_offers i rest c v o =
    enterprise_link b enterprise_offers i v >>= λ links. rest (append c v o links)

abbrev pub from_voucher :
    Batch
    → (offers enterprise_offers : List Text) → (i : ℕ) → (rest : Created → Action Store Created)
    → Created
    → VoucherRow
    → Action Store Created
from_voucher b offers enterprise_offers i rest c v =
    call (offer_at offers i) >>= from_offer b enterprise_offers i rest c v

-- The loop over `range(quantity)`, from `i` on.
unfoldable pub create_loop :
    Python
    → Batch
    → (offers enterprise_offers : List Text) → (rounds i : ℕ) → Created
    → Action Store Created
unfolding create_new_voucher nth
create_loop y b offers enterprise_offers zero i c = pure c
create_loop y b offers enterprise_offers (suc n) i c =
    create_new_voucher y b
    >>= from_voucher b offers enterprise_offers i
        (create_loop y b offers enterprise_offers n (suc i)) c

abbrev pub add_links : List Link → Store → Store
add_links links s = record s { links = s.links ++ links }

abbrev pub nothing_created : Created
nothing_created = record { voucher_offers = []; enterprise_voucher_offers = []; vouchers = [] }

-- The two `bulk_create` calls.
abbrev pub store_links : Created → Action Store (List VoucherRow)
store_links c s =
    (ok c.vouchers, add_links c.enterprise_voucher_offers (add_links c.voucher_offers s))

unfoldable pub create_vouchers_and_attach_offers :
    Python
    → Batch
    → (offers enterprise_offers : List Text) → (quantity : ℕ) → Action Store (List VoucherRow)
unfolding create_loop
create_vouchers_and_attach_offers y b offers enterprise_offers quantity =
    create_loop y b offers enterprise_offers quantity 0 nothing_created >>= store_links
