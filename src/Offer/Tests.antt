-- ===== src/Offer/Tests.antt =====
-- Runs of the offers at concrete inputs, and the theorems about them applied there.
use edx_ecommerce.Base.{
  ℕ, ◌≡◌, refl, true, false, Option, none, some, List, [], ◌∷◌, ◌==◌, if◌then◌else◌, any, keep,
}
use edx_ecommerce.Base.Action.{ok, raised, connection_error}
use edx_ecommerce.Offer.Range.{
  Range, SeatType, contains_product, all_products, contains_product-all_products,
}
use edx_ecommerce.Offer.Satisfied.{
  Offer, Call, is_condition_satisfied, is_condition_satisfied-IsCovered, IsCovered,
}
use edx_ecommerce.Base.Int.{pos}
use edx_ecommerce.Offer.{ConditionalOffer, site, percentage}
use edx_ecommerce.Offer.Applicable.{Line, Cache, get_applicable_lines}
use edx_ecommerce.Offer.Unvisited.{get_applicable_lines-unvisited}
use edx_ecommerce.Offer.Applicator.{
  Sources, get_program_offers, get_enterprise_offers, get_offers, chain, is_generic,
}
use edx_ecommerce.Offer.Priority.{
  Descending, has_priority, get_offers-Descending, get_offers-exclusive,
}

abbrev seat : ℕ → Line
seat i = record {
  id = i;
  is_seat_product = true;
  is_course_entitlement_product = false;
  certificate_type = some 1;
  identifier = i;
  price = 5000;
}

abbrev cache : Cache
cache i = if i == 1 then some false else none

get_applicable_lines-unvisited_example :
    get_applicable_lines (λ _. true) (λ _ _. raised connection_error) (seat 1 ∷ seat 2 ∷ []) cache
    ≡ (ok ((5000, seat 2) ∷ []), cache)
get_applicable_lines-unvisited_example =
    get_applicable_lines-unvisited (λ _. true) (λ _ _. raised connection_error) cache (seat 1)
      (seat 2) refl refl refl

abbrev offer : (id priority : ℕ) → Option ℕ → ConditionalOffer
offer i p e = record {
  id = i;
  offer_type = site;
  priority = p;
  enterprise_customer_uuid = e;
  enterprise_customer_catalog_uuid = none;
  program_uuid = none;
  benefit_type = percentage;
  benefit_value = 100;
  max_global_applications = none;
  max_discount = none;
  max_user_discount = none;
  num_applications = pos 0;
  num_orders = pos 0;
  total_discount = pos 0;
}

abbrev sources : Sources
sources = record {
  active = offer 1 0 none ∷ offer 2 10 (some 12) ∷ offer 3 10 (some 13) ∷ [];
  enterprise_id = some 12;
  bundle_attributes = ok [];
  basket_offers = offer 4 20 (some 12) ∷ [];
  user_offers = [];
  session_offers = [];
}

abbrev given : List ConditionalOffer
given = offer 4 20 (some 12) ∷ offer 2 10 (some 12) ∷ []

found : get_offers sources none ≡ ok given
unfolding get_offers
found = refl

get_offers-Descending_example :
    (offers : List ConditionalOffer) × (get_offers sources none ≡ ok offers)
    × Descending offers
    × ((n : ℕ) → keep (has_priority n) offers ≡ keep (has_priority n) (chain sources []))
unfolding get_program_offers
get_offers-Descending_example = get_offers-Descending sources none [] refl

get_offers-exclusive_example : any is_generic given ≡ false
unfolding get_program_offers get_enterprise_offers
get_offers-exclusive_example = get_offers-exclusive sources none [] given refl found refl refl

abbrev range : Option (List ℕ) → Option ℕ → List SeatType → Range
range catalog query types = record {
  catalog = catalog;
  catalog_query = query;
  course_catalog = none;
  enterprise_customer = none;
  course_seat_types = types;
}

contains_product-all_products_example :
    contains_product false
      (raised connection_error)
      (range (some (5 ∷ 6 ∷ [])) none [])
      (record { id = 6; course_id = 1; has_seat_type = false })
    ≡ ok true
unfolding all_products
contains_product-all_products_example =
    contains_product-all_products false (raised connection_error) (7 ∷ [])
      (range (some (5 ∷ 6 ∷ [])) none []) (record { id = 6; course_id = 1; has_seat_type = false })
      refl refl

abbrev domain_offer : Offer
domain_offer = record {
  email_domains = 1 ∷ [];
  range = some (range none (some 1) (SeatType.verified ∷ []));
  multi_use = some false;
  start_datetime = some 3;
  end_datetime = none;
}

abbrev visit : Call
visit = record {
  matches = λ domain email. domain == email;
  owner_email = some 1;
  lines = seat 2 ∷ [];
  accepts = λ _. true;
  discovery = λ _ _. ok (λ _. some true);
  super_answer = ok false;
}

abbrev cached : Cache
cached i = if i == 2 then some true else none

condition_met : is_condition_satisfied visit domain_offer cached ≡ (ok true, cached)
unfolding is_condition_satisfied
condition_met = refl

is_condition_satisfied-IsCovered_example :
    IsCovered visit domain_offer (range none (some 1) (SeatType.verified ∷ [])) cached cached
is_condition_satisfied-IsCovered_example =
    is_condition_satisfied-IsCovered visit domain_offer
      (range none (some 1) (SeatType.verified ∷ [])) cached cached refl refl condition_met
