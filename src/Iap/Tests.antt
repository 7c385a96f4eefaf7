-- ===== src/Iap/Tests.antt =====
-- In-app purchases at concrete inputs, and the theorem about them applied there.
use edx_ecommerce.Base.{ℕ, ◌≡◌, refl, true, false, none, some, [], ◌∷◌, ◌==◌, if◌then◌else◌, arith}
use edx_ecommerce.Base.Action.{ok, raised, redundant_payment}
use edx_ecommerce.Iap.Response.{
  Name, Receipt, Purchase, Response, Processor, handle_processor_response,
}
use edx_ecommerce.Iap.Unique.{IsUnique, handle_processor_response-Keeps}

abbrev purchase : (product date transaction : ℕ) → Purchase
purchase product date transaction = record {
  product_id = product;
  purchase_date_ms = date;
  transaction_id = some transaction;
  original_transaction_id = some transaction;
}

-- The store answers at the second attempt, of three.
abbrev processor : Processor
processor = record {
  name = Name.ios;
  basket = 3;
  total = 4900;
  retries = true;
  retry_attempts = 2;
  disable_redundant_check = false;
  validate = λ attempt.
      if attempt == 1
      then none
      else some (Receipt.ios_receipt 70 (purchase 1 60 500 ∷ purchase 2 70 501 ∷ []));
}

abbrev response : Response
response = record { product_id = 2; transaction_id = none; original_transaction_id = none }

accepted :
    (handle_processor_response processor response []).0
    ≡ ok (record { transaction_id = some 501; total = 4900 })
unfolding handle_processor_response
accepted = refl

refused_again :
    (handle_processor_response processor response
      (handle_processor_response processor response []).1).0
    ≡ raised redundant_payment
unfolding handle_processor_response
refused_again = refl

no_rows-IsUnique : IsUnique []
no_rows-IsUnique name x = omega arith

handle_processor_response-Keeps_example :
    IsUnique (handle_processor_response processor response []).1
handle_processor_response-Keeps_example =
    handle_processor_response-Keeps processor response refl [] no_rows-IsUnique
