-- ===== src/Fulfillment/Tests.antt =====
-- Runs of the fulfillment at concrete inputs, and the theorems about it applied there.
use edx_ecommerce.Base.{
  ℕ, ◌≡◌, refl, Bool, true, false, none, some, List, [], ◌∷◌, if◌then◌else◌, any, arith, ◌==◌, map,
  ==-refl,
}
use edx_ecommerce.Base.Action.{
  Result, ok, raised, connection_error, invalid_status, not_implemented,
}
use edx_ecommerce.Refund.{
  available_statuses, OrderLine, RefundLine, RefundStatus, RefundLineStatus, State,
  revoke_fulfillment_for_refund,
}
use edx_ecommerce.Refund.Approve.{approve}
use edx_ecommerce.Refund.Lines.{revoked}
use edx_ecommerce.Fulfillment.{
  order_code, line_code, fulfillment_modules, OrderStatus, LineStatus, Oscar, OscarLaws,
  order_pipeline, line_pipeline, same_order_status, same_line_status, ProductClass, Product, Line,
  Services, all_complete, revoke_modules,
}
use edx_ecommerce.Fulfillment.Order.{Order, run_modules, worked, fulfill_order}
use edx_ecommerce.Fulfillment.Outcome.{is_fulfillable, settled, fulfill_order-outcome}
use edx_ecommerce.Fulfillment.Serviced.{Succeeds}
use edx_ecommerce.Fulfillment.Success.{fulfill_order-complete}
use edx_ecommerce.Fulfillment.Refunds.{
  unenrolls, revoke_fulfillment-seats, approve-seats, approve-irrevocable,
}

abbrev allowed : {S : Type 0} → (S → S → Bool) → List (S × List S) → S → S → Result S
allowed same pipeline old new =
    if same old new
    then ok new
    else if any (same new) (available_statuses same pipeline old)
    then ok new
    else raised invalid_status

abbrev oscar : Oscar
oscar = record {
  available_order_statuses = available_statuses same_order_status order_pipeline;
  set_order_status = allowed same_order_status order_pipeline;
  set_line_status = allowed same_line_status line_pipeline;
}

allowed_next :
    {S : Type 0} (same : S → S → Bool) (pipeline : List (S × List S)) (s t : S)
    → any (same t) (available_statuses same pipeline s) ≡ true
    → allowed same pipeline s t ≡ ok t
allowed_next same pipeline s t h = ground (arith)

oscar-OscarLaws : OscarLaws oscar
unfolding available_statuses
oscar-OscarLaws = record {
  available = λ s. refl;
  order_same = λ s. rw (==-refl (order_code s)) refl;
  order_allowed = λ s t h. allowed_next same_order_status order_pipeline s t h;
  line_same = λ s. rw (==-refl (line_code s)) refl;
  line_allowed = λ s t h. allowed_next same_line_status line_pipeline s t h;
}

abbrev pub services : Services
services = record {
  oscar = oscar;
  has_api_key = true;
  post_enrollment = λ _. ok 200;
  post_entitlement = λ _. ok 31;
  create_vouchers = λ _. ok tt;
  notify_enrollment_codes = ok tt;
  allocation_payload = λ _. ok tt;
  create_allocation = λ _. ok tt;
  revoke_enrollment = λ l. if l.id == 2 then raised connection_error else ok 200;
  is_mode_mismatch = λ _. ok false;
  revoke_entitlement = λ _. ok tt;
  arrange = λ ls. ls;
}

abbrev product : ProductClass → Product
product c = record {
  id = 1;
  product_class = c;
  certificate_type = none;
  course_key = some 7;
  uuid = some 8;
}

abbrev line : ℕ → ProductClass → Line
line i c = record { id = i; product = product c; status = LineStatus.opened }

abbrev pub order : Order
order = record {
  status = OrderStatus.opened;
  lines =
      line 1 ProductClass.seat
      ∷ line 2 ProductClass.course_entitlement
      ∷ line 3 ProductClass.enrollment_code
      ∷ [];
  has_details = true;
}

abbrev unreachable : Services
unreachable = record services { post_enrollment = λ _. raised connection_error }

-- The LMS cannot be reached: the seat keeps the error, the other lines are fulfilled.
network_failure :
    let (r, o) = fulfill_order unreachable order in
    (r ≡ ok tt)
    × (o.status ≡ OrderStatus.fulfillment_error)
    × (map (λ (l : Line). l.status) o.lines
        ≡ LineStatus.network_error ∷ LineStatus.complete ∷ LineStatus.complete ∷ [])
unfolding fulfill_order available_statuses
network_failure = (refl, refl, refl)

fulfill_order-outcome_example : fulfill_order unreachable order ≡ (
  ok tt,
  settled
      (worked OrderStatus.opened (run_modules unreachable fulfillment_modules order.lines [] true)),
)
unfolding is_fulfillable
fulfill_order-outcome_example = fulfill_order-outcome unreachable order oscar-OscarLaws

pub services-Succeeds : Succeeds services
services-Succeeds = record {
  laws = oscar-OscarLaws;
  api_key = refl;
  enrolls = λ _. refl;
  entitles = λ _. (31, refl);
  vouchers = λ _. refl;
  notifies = refl;
  payload = λ _. refl;
  allocates = λ _. refl;
  same_members = λ p ls. refl;
}

fulfill_order-complete_example :
    (after : Order) × (fulfill_order services order ≡ (ok tt, after))
    × (after.status ≡ OrderStatus.complete)
    × (all_complete after.lines ≡ true)
unfolding fulfill_order is_fulfillable
fulfill_order-complete_example =
    fulfill_order-complete services services-Succeeds order refl refl refl

abbrev line_of : ProductClass → OrderLine → Line
line_of c o = line o.id c

abbrev refund_line : ℕ → RefundLine
refund_line i = record {
  order_line = record {
    id = i;
    line_price_excl_tax = 5000;
    quantity = 1;
    course_key = some 7;
    entitlement_uuid = none;
  };
  line_credit_excl_tax = 5000;
  quantity = 1;
  status = RefundLineStatus.opened;
}

revoke_fulfillment-seats_example :
    revoke_fulfillment_for_refund
      (revoke_modules services (line_of ProductClass.seat))
      10000
      (refund_line 1 ∷ refund_line 2 ∷ [])
    ≡ (
      ok false,
      map
          (revoked (λ o. unenrolls services (line_of ProductClass.seat o)))
          (refund_line 1 ∷ refund_line 2 ∷ []),
    )
revoke_fulfillment-seats_example =
    revoke_fulfillment-seats services (line_of ProductClass.seat) 10000
      (refund_line 1 ∷ refund_line 2 ∷ []) (omega arith)
      ((refl, refl, refl, refl), ((refl, refl, refl, refl), tt))

abbrev payments : edx_ecommerce.Refund.Services
payments = record {
  issue_credit = λ src amount. ok 77;
  saves_offer = λ _. true;
  modules = revoke_modules services (line_of ProductClass.enrollment_code);
}

abbrev due_refund : State
due_refund = record {
  refund = record {
    order = record { source = some 5; discounts = []; num_lines = 1 };
    total_credit_excl_tax = 5000;
    status = RefundStatus.payment_refunded;
    lines = refund_line 1 ∷ [];
  };
  source_refunds = record { amount = 5000; reference = 77 } ∷ [];
  events = record { amount = 5000; reference = 77 } ∷ [];
  offers = [];
  post_refunds = 0;
}

approve-irrevocable_example :
    approve payments true due_refund ≡ (raised not_implemented, due_refund)
approve-irrevocable_example =
    approve-irrevocable payments services (line_of ProductClass.enrollment_code) due_refund
      (refund_line 1) [] refl refl (omega arith) refl refl

abbrev seat_payments : edx_ecommerce.Refund.Services
seat_payments = record payments { modules = revoke_modules services (line_of ProductClass.seat) }

-- The LMS takes the enrollment of line 1 back, and not that of line 2.
abbrev due_seats : State
due_seats = record due_refund {
  refund = record (due_refund.refund) { lines = refund_line 1 ∷ refund_line 2 ∷ [] };
}

abbrev refused_lines : List RefundLine
refused_lines =
    record (refund_line 1) { status = RefundLineStatus.complete }
    ∷ record (refund_line 2) { status = RefundLineStatus.revocation_error }
    ∷ []

approve-seats_example : approve seat_payments true due_seats ≡ (
  ok false,
  record due_seats {
    refund = record (due_seats.refund) {
      status = RefundStatus.revocation_error;
      lines = refused_lines;
    };
  },
)
approve-seats_example =
    approve-seats seat_payments services (line_of ProductClass.seat) due_seats refl refl
      (omega arith) ((refl, refl, refl, refl), ((refl, refl, refl, refl), tt))
