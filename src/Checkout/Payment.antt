-- ===== src/Checkout/Payment.antt =====
-- `handle_payment` with `record_payment`, `create_order` and `handle_post_order` of
-- ecommerce/extensions/checkout/mixins.py. Tracking and the audit log are left out.
use edx_ecommerce.Base.{
  ℕ, ◌≡◌, refl, Bool, true, not, Option, none, some, List, [], ◌∷◌, ◌++◌, ◌==◌, any, if◌then◌else◌,
  ⊤,
}
use edx_ecommerce.Base.Action.{Action, Result, ok, raised, other, modify, ◌>>◌}
use edx_ecommerce.Checkout.Placement.{Store, Checkout, handle_order_placement}

-- `HandledProcessorResponse`, as far as it is recorded.
pub record Handled : Type 0 where
  pub transaction_id : ℕ
  pub total : ℕ
  pub currency : ℕ
  pub card_number : ℕ
  pub card_type : ℕ

pub record Source : Type 0 where
  pub source_type : ℕ
  pub currency : ℕ
  pub amount_allocated : ℕ
  pub amount_debited : ℕ
  pub reference : ℕ
  pub label : ℕ
  pub card_type : ℕ

-- A payment event of the type `Paid`.
pub record PaidEvent : Type 0 where
  pub amount : ℕ
  pub reference : ℕ
  pub processor_name : ℕ

-- The names of the source types, and what the mixin keeps until the order is placed: `none` is
-- Python's `None`.
pub record Pending : Type 0 where
  pub source_types : List ℕ
  pub paid_type : Bool
  pub payment_sources : Option (List Source)
  pub payment_events : Option (List PaidEvent)

-- The processor: its name and its answer to the response; `add_payment_source` is Oscar's.
pub record Processor : Type 0 where
  pub name : ℕ
  pub handle_processor_response : Result Handled
  pub add_payment_source : Source → Option (List Source) → Option (List Source)

abbrev pub add_payment_event : PaidEvent → Option (List PaidEvent) → Option (List PaidEvent)
add_payment_event e none = some (e ∷ [])
add_payment_event e (some es) = some (es ++ e ∷ [])

-- `get_or_create(name=…)` on a list of names.
abbrev pub get_or_create : ℕ → List ℕ → List ℕ
get_or_create n ns = if any (λ m. m == n) ns then ns else ns ++ n ∷ []

abbrev pub paid_event : Processor → Handled → PaidEvent
paid_event y h = record { amount = h.total; reference = h.transaction_id; processor_name = y.name }

unfoldable pub record_payment : Processor → Handled → Action Pending ⊤
record_payment y h =
    modify (λ p. record p { source_types = get_or_create y.name p.source_types; paid_type = true })
    >> modify (λ p. record p {
      payment_sources =
          y.add_payment_source
            (record {
              source_type = y.name;
              currency = h.currency;
              amount_allocated = h.total;
              amount_debited = h.total;
              reference = h.transaction_id;
              label = h.card_number;
              card_type = h.card_type;
            })
            p.payment_sources;
    })
    >> modify
        (λ p. record p { payment_events = add_payment_event (paid_event y h) p.payment_events })

abbrev pub when_accepted : Processor → Result Handled → Action Pending ⊤
when_accepted y (ok h) p = record_payment y h p
when_accepted y (raised e) p = (raised e, p)

unfoldable pub handle_payment : Processor → Action Pending ⊤
unfolding record_payment
handle_payment y = when_accepted y y.handle_processor_response

abbrev returned : Result Handled → Result ⊤
returned (ok h) = ok tt
returned (raised e) = raised e

abbrev events_after : Processor → Result Handled → Option (List PaidEvent) → Option (List PaidEvent)
events_after y (ok h) es = add_payment_event (paid_event y h) es
events_after y (raised e) es = es

when_accepted-events :
    (y : Processor) (r : Result Handled) (p : Pending)
    → ((when_accepted y r p).0 ≡ returned r)
      × ((when_accepted y r p).1.payment_events ≡ events_after y r p.payment_events)
unfolding record_payment
when_accepted-events y (ok h) p = (refl, refl)
when_accepted-events y (raised e) p = (refl, refl)

-- `handle_payment` returns or raises as the processor does; a payment that the processor took is
-- recorded by one event with its amount and reference, and any other by none.
pub handle_payment-events :
    (y : Processor) (p : Pending)
    → ((handle_payment y p).0 ≡ returned y.handle_processor_response)
      × ((handle_payment y p).1.payment_events
          ≡ events_after y y.handle_processor_response p.payment_events)
unfolding handle_payment
handle_payment-events y p = when_accepted-events y y.handle_processor_response p

-- What is known before the order number is; the handler of `create_order` reads the number and raises
-- an `UnboundLocalError` when there is none yet.
abbrev pub when_numbered : Result ⊤ → Action Store ⊤ → Action Store ⊤
when_numbered (ok u) place s = place s
when_numbered (raised e) place s = (raised other, s)

-- `calculated` is the calculation of the shipping charge, the total and the number. The handler logs
-- what the placement raises and raises it again.
unfoldable pub create_order : (calculated : Result ⊤) → Checkout → Action Store ⊤
unfolding handle_order_placement
create_order calculated v = when_numbered calculated (handle_order_placement v)

-- The business clients by their names, and the client of each invoice: a paid one for a bulk
-- purchase.
pub record Invoices : Type 0 where
  pub clients : List ℕ
  pub invoices : List ℕ

-- `business_client` is the first organization attribute of the basket, if the type of the attribute
-- is there; the lines are the enrollment code products among those of the basket.
unfoldable pub handle_post_order :
    (enrollment_codes : List Bool)
    → (has_type : Bool) → (business_client : Option ℕ) → Action Invoices ⊤
handle_post_order codes has_type business_client s =
    if not has_type then (ok tt, s) else elim business_client [
      | none ↦ (ok tt, s)
      | some c ↦
          if any (λ b. b) codes
          then (
            ok tt,
            record { clients = get_or_create c s.clients; invoices = s.invoices ++ c ∷ [] },
          )
          else (ok tt, s)
    ]
