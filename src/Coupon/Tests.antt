-- ===== src/Coupon/Tests.antt =====
-- The creation of vouchers at concrete inputs, and the theorems about it applied there.
use edx_ecommerce.Base.{
  ◌≡◌, refl, true, false, none, some, [], ◌∷◌, ◌++◌, ◌+◌, length, map, if◌then◌else◌, leb, ◌&&◌,
  ◌==◌, arith,
}
use edx_ecommerce.Base.Action.{ok, raised, value_error}
use edx_ecommerce.Voucher.{Usage}
use edx_ecommerce.Order.Text.{Text}
use edx_ecommerce.Coupon.{Date, VoucherRow, Link, Store, Python}
use edx_ecommerce.Coupon.Code.{is_taken, generate_code_string, generate_code_string-free}
use edx_ecommerce.Coupon.Create.{Batch}
use edx_ecommerce.Coupon.Enterprise.{create_enterprise_vouchers}
use edx_ecommerce.Coupon.Ends.{IsPython, EndsWith}
use edx_ecommerce.Coupon.Links.{own_links, IsApart}
use edx_ecommerce.Coupon.Attached.{create_enterprise_vouchers-own_links}

-- The codes are "A", "B", "C" and so on.
abbrev python : Python
python = record {
  random_code = λ i. (b'A' + i) ∷ [];
  code_length = 1;
  recursion_limit = 5;
  parse = λ t. if t == 0 then raised value_error else ok t;
  insert = λ v vs. ok tt;
  is_alnum = λ c. leb b'0' c && leb c b'z';
}

python-IsPython : IsPython python
python-IsPython = record { parses = λ t. ground arith; inserts = λ v vs. tt }

abbrev batch : Batch
batch = record {
  code = none;
  name = b'n' ∷ [];
  start_datetime = some (Date.datetime 1);
  end_datetime = some (Date.text 2);
  voucher_type = Usage.multi_use;
  max_uses = some 5;
  is_percentage = true;
  benefit_value = 100;
  enterprise_customer = some 12;
  email_domains = none;
  offer_name = b'c' ∷ [];
}

abbrev row : Text → VoucherRow
row code = record {
  name = b'n' ∷ code;
  code = code;
  usage = Usage.multi_use;
  start_datetime = 1;
  end_datetime = 2;
}

-- The codes "a" and "B" are in use.
abbrev store : Store
store = record {
  offers = [];
  vouchers = row (b'a' ∷ []) ∷ row (b'B' ∷ []) ∷ [];
  links = [];
  drawn = 0;
}

generate_code_string-free_example :
    (code : Text) × (s : Store) × (generate_code_string python store ≡ (ok code, s))
    × (is_taken code s.vouchers ≡ false)
    × (s.vouchers ≡ store.vouchers)
generate_code_string-free_example = generate_code_string-free python 2 store refl (omega arith) refl

two_vouchers :
    map (λ (l : Link). l.voucher) (create_enterprise_vouchers python batch 2 store).1.links
    ≡ (b'C' ∷ []) ∷ (b'D' ∷ []) ∷ []
unfolding create_enterprise_vouchers
two_vouchers = refl

create_enterprise_vouchers-own_links_example :
    EndsWith []
      (λ vs t.
        (length vs ≡ 2)
        × (t.links ≡ [] ++ own_links (b'c' ∷ []) 0 vs)
        × IsApart (own_links (b'c' ∷ []) 0 vs))
      (create_enterprise_vouchers python batch 2 store)
create_enterprise_vouchers-own_links_example =
    create_enterprise_vouchers-own_links python python-IsPython batch 2 store refl
