-- ===== src/Offer/Applicator.antt =====
-- `Applicator.get_offers` of ecommerce/extensions/offer/applicator.py: which offers a basket is
-- given, and in which order.
use edx_ecommerce.Base.{
  ℕ, Bool, true, false, not, ◌&&◌, ◌||◌, Option, none, some, List, [], ◌∷◌, ◌++◌, ◌==◌, ltb,
  if◌then◌else◌, is_some, keep, ⊤,
}
use edx_ecommerce.Base.Action.{Action, Result, ok, raised, call, ◌>>=◌}
use edx_ecommerce.Offer.Rows.{ConditionalOffer, is_site}

-- What the lookups outside this class give: the offers of Oscar's managers and methods, the user's
-- enterprise, and the texts of the basket's bundle attributes, whose type may not exist.
pub record Sources : Type 0 where
  pub active : List ConditionalOffer
  pub enterprise_id : Option ℕ
  pub bundle_attributes : Result (List (Option ℕ))
  pub basket_offers : List ConditionalOffer
  pub user_offers : List ConditionalOffer
  pub session_offers : List ConditionalOffer

abbrev pub is_equal : Option ℕ → ℕ → Bool
is_equal none b = false
is_equal (some a) b = a == b

-- A site offer for neither a program nor an enterprise.
abbrev pub is_generic : ConditionalOffer → Bool
is_generic o =
    (is_site o.offer_type && not (is_some o.program_uuid))
    && not (is_some o.enterprise_customer_uuid)

unfoldable pub get_site_offers : Sources → List ConditionalOffer
get_site_offers v = keep is_generic v.active

unfoldable pub get_enterprise_offers : Sources → List ConditionalOffer
get_enterprise_offers v = elim v.enterprise_id [
  | none ↦ []
  | some e ↦ keep (λ o. is_site o.offer_type && is_equal o.enterprise_customer_uuid e) v.active
]

abbrev pub program_uuid_of : (bundle_id : Option ℕ) → List (Option ℕ) → Option ℕ
program_uuid_of bundle_id [] = bundle_id
program_uuid_of bundle_id (text ∷ texts) = text

abbrev pub offers_of_program : Sources → Option ℕ → List ConditionalOffer
offers_of_program v none = []
offers_of_program v (some p) =
    keep (λ o. is_site o.offer_type && is_equal o.program_uuid p) v.active

unfoldable pub get_program_offers :
    Sources → (bundle_id : Option ℕ) → Result (List ConditionalOffer)
get_program_offers v bundle_id = elim v.bundle_attributes [
  | ok texts ↦ ok (offers_of_program v (program_uuid_of bundle_id texts))
  | raised e ↦ raised e
]

-- `sorted(…, key=lambda o: o.priority, reverse=True)`, which is stable.
abbrev pub insert : ConditionalOffer → List ConditionalOffer → List ConditionalOffer
insert o [] = o ∷ []
insert o (x ∷ xs) = if ltb o.priority x.priority then x ∷ insert o xs else o ∷ x ∷ xs

abbrev pub sorted : List ConditionalOffer → List ConditionalOffer
sorted [] = []
sorted (o ∷ os) = insert o (sorted os)

abbrev pub is_empty : List ConditionalOffer → Bool
is_empty [] = true
is_empty (o ∷ os) = false

abbrev pub chain : Sources → (program_offers : List ConditionalOffer) → List ConditionalOffer
chain v program_offers =
    let enterprise_offers = get_enterprise_offers v in
    v.session_offers
    ++ v.basket_offers
    ++ v.user_offers
    ++ program_offers
    ++ enterprise_offers
    ++ (if not (is_empty program_offers) || not (is_empty enterprise_offers)
        then []
        else get_site_offers v)

unfoldable pub get_offers : Sources → (bundle_id : Option ℕ) → Result (List ConditionalOffer)
unfolding get_program_offers get_enterprise_offers get_site_offers
get_offers v bundle_id = elim (get_program_offers v bundle_id) [
  | ok program_offers ↦ ok (sorted (chain v program_offers))
  | raised e ↦ raised e
]

-- Oscar's `apply_offers` writes the discounts to the basket.
unfoldable pub apply :
    {S : Type 0} (v : Sources) (bundle_id : Option ℕ)
    (apply_offers : List ConditionalOffer → Action S ⊤)
    → Action S ⊤
unfolding get_offers
apply v bundle_id apply_offers = call (get_offers v bundle_id) >>= apply_offers
