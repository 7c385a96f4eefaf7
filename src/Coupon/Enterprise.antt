-- ===== src/Coupon/Enterprise.antt =====
-- `get_or_create_enterprise_offer` and `create_enterprise_vouchers` of
-- ecommerce/extensions/voucher/utils.py.
use edx_ecommerce.Base.{ℕ, zero, suc, true, List, [], ◌∷◌, if◌then◌else◌}
use edx_ecommerce.Base.Action.{Action, pure, call, modify, ◌>>=◌, ◌>>◌}
use edx_ecommerce.Voucher.{Usage}
use edx_ecommerce.Order.Text.{Text}
use edx_ecommerce.Coupon.Rows.{VoucherRow, OfferRow, Store, Python, same_text}
use edx_ecommerce.Coupon.Create.{
  Batch, generate_offer_name, validate_voucher_fields, create_vouchers_and_attach_offers,
}

-- `ConditionalOffer.objects.update_or_create(name=…, defaults=…)`
unfoldable pub update_or_create : OfferRow → List OfferRow → List OfferRow
update_or_create o [] = o ∷ []
update_or_create o (p ∷ ps) =
    let rest = update_or_create o ps in if same_text p.name o.name then o ∷ ps else p ∷ rest

abbrev pub enterprise_offer_row : Batch → Text → OfferRow
enterprise_offer_row b name = record {
  name = name;
  max_global_applications = b.max_uses;
  benefit_value = b.benefit_value;
  enterprise_customer = b.enterprise_customer;
  email_domains = b.email_domains;
}

abbrev pub set_offer : OfferRow → Store → Store
set_offer o s = record s { offers = update_or_create o s.offers }

-- The name of the customer, which it asks for, and the rows of the condition and the benefit, which
-- it finds or creates first, are left out.
abbrev pub get_or_create_enterprise_offer : Batch → (offer_name : Text) → Action Store Text
get_or_create_enterprise_offer b name =
    modify (set_offer (enterprise_offer_row b name)) >> pure name

-- The loop over `range(num_of_offers)`, from `num` on.
unfoldable pub enterprise_offers : Batch → (rounds num : ℕ) → Action Store (List Text)
unfolding update_or_create generate_offer_name
enterprise_offers b zero num = pure []
enterprise_offers b (suc n) num =
    get_or_create_enterprise_offer b (generate_offer_name b.offer_name num true) >>= λ o.
    enterprise_offers b n (suc num) >>= λ os. pure (o ∷ os)

abbrev pub num_of_offers : Usage → (quantity : ℕ) → ℕ
num_of_offers Usage.single_use quantity = 1
num_of_offers _ quantity = quantity

unfoldable pub create_enterprise_vouchers :
    Python → Batch → (quantity : ℕ) → Action Store (List VoucherRow)
unfolding validate_voucher_fields enterprise_offers create_vouchers_and_attach_offers
create_enterprise_vouchers y b quantity =
    call (validate_voucher_fields y b)
    >> enterprise_offers b (num_of_offers b.voucher_type quantity) 0
    >>= λ offers. create_vouchers_and_attach_offers y b offers [] quantity
