-- ===== src/Order/Creator.antt =====
-- `OrderCreator` of ecommerce/extensions/order/utils.py.
use edx_ecommerce.Base.{ℕ, Option, none, some, List, [], ◌∷◌, ◌==◌, if◌then◌else◌, ⊤}
use edx_ecommerce.Base.Action.{Action, Result, ok, raised}

-- The fields of an order, of which the optional ones are left out when they are missing. `site` fixes
-- the partner.
pub record OrderFields : Type 0 where
  pub basket : ℕ
  pub number : ℕ
  pub site : ℕ
  pub currency : ℕ
  pub total_incl_tax : ℕ
  pub total_excl_tax : ℕ
  pub shipping_incl_tax : ℕ
  pub shipping_excl_tax : ℕ
  pub shipping_address : Option ℕ
  pub billing_address : Option ℕ
  pub user_id : Option ℕ
  pub status : Option ℕ

pub record Referral : Type 0 where
  pub basket : ℕ
  pub order : Option ℕ

-- What is created: the orders by their rows, and the referrals.
pub record Rows : Type 0 where
  pub orders : List OrderFields
  pub referrals : List Referral

-- `extra_order_fields` replaces fields by what it has; `insert` is the write of an order, which gives
-- its id, and `referral_saves` the write of a referral.
pub record Writes : Type 0 where
  pub extra_order_fields : OrderFields → OrderFields
  pub insert : OrderFields → List OrderFields → Result ℕ
  pub referral_saves : Referral → Result ⊤

abbrev pub site_of : Option ℕ → (request_site : ℕ) → ℕ
site_of none request_site = request_site
site_of (some site) request_site = site

abbrev pub with_referral : ℕ → Referral → Referral
with_referral order r = record r { order = some order }

-- The referral of the basket, of which there is at most one, gets the order; what its write raises is
-- logged.
abbrev pub if_saved : Result ⊤ → (new old : Referral) → Referral
if_saved (ok u) new old = new
if_saved (raised e) new old = old

unfoldable pub set_order : Writes → (basket order : ℕ) → List Referral → List Referral
set_order w basket order [] = []
set_order w basket order (r ∷ rs) =
    let rest = set_order w basket order rs in
    if r.basket == basket
    then if_saved (w.referral_saves (with_referral order r)) (with_referral order r) r ∷ rs
    else r ∷ rest

abbrev pub with_inserted : Writes → (basket : ℕ) → OrderFields → Rows → Result ℕ → Result ℕ × Rows
with_inserted w basket f s (raised e) = (raised e, s)
with_inserted w basket f s (ok order) =
    (ok order, record { orders = f ∷ s.orders; referrals = set_order w basket order s.referrals })

-- The fields come with the site of the basket, if it has one; the user's id only for a user who is
-- logged in.
unfoldable pub create_order_model :
    Writes → (basket_site : Option ℕ) → (request_site : ℕ) → OrderFields → Action Rows ℕ
unfolding set_order
create_order_model w basket_site request_site fields s =
    let f = w.extra_order_fields (record fields { site = site_of basket_site request_site }) in
    with_inserted w fields.basket f s (w.insert f s.orders)
