-- ===== src/Coupon/Clean.antt =====
-- `clean` with `clean_code` and `clean_datetimes`, `save` and `does_exist` of `Voucher` in
-- ecommerce/extensions/voucher/models.py.
use edx_ecommerce.Base.{Bool, Option, none, some, List, [], ◌∷◌, ◌++◌, all, any, if◌then◌else◌, ⊤}
use edx_ecommerce.Base.Action.{Action, Result, ok, raised, validation_error, call, modify, ◌>>◌}
use edx_ecommerce.Order.Text.{Text}
use edx_ecommerce.Coupon.Rows.{Date, datetime, text, VoucherRow, Store, Python, same_text}

-- An empty code is not set; `isalnum` wants at least one character.
unfoldable pub clean_code : Python → Text → Result ⊤
clean_code y [] = raised validation_error
clean_code y (c ∷ code) = if all y.is_alnum (c ∷ code) then ok tt else raised validation_error

unfoldable pub clean_datetimes : (start end : Option Date) → Result ⊤
clean_datetimes none end = raised validation_error
clean_datetimes (some start) none = raised validation_error
clean_datetimes (some (datetime s)) (some (datetime e)) = ok tt
clean_datetimes (some (datetime s)) (some (text e)) = raised validation_error
clean_datetimes (some (text s)) (some end) = raised validation_error

abbrev pub both : Result ⊤ → Result ⊤ → Result ⊤
both (ok u) r = r
both (raised e) r = raised e

-- Oscar's own `clean` is a part of `insert`.
unfoldable pub clean : Python → Text → (start end : Option Date) → Result ⊤
unfolding clean_code clean_datetimes
clean y code start end = both (clean_code y code) (clean_datetimes start end)

abbrev pub add_voucher : VoucherRow → Store → Store
add_voucher v s = record s { vouchers = s.vouchers ++ v ∷ [] }

-- A new row is cleaned and written. Its dates are `datetime` values.
unfoldable pub save : Python → VoucherRow → Action Store ⊤
unfolding clean
save y v s =
    (call (clean y v.code (some (datetime v.start_datetime)) (some (datetime v.end_datetime)))
        >> call (y.insert v s.vouchers)
        >> modify (add_voucher v))
      s

abbrev pub does_exist : Text → List VoucherRow → Bool
does_exist code vs = any (λ (v : VoucherRow). same_text v.code code) vs
