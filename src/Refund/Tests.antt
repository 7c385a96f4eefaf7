-- ===== src/Refund/Tests.antt =====
-- Runs of the refund's methods at concrete inputs, and the theorems about them applied there.
use edx_ecommerce.Base.{
  ℕ, ◌==◌, ◌≤◌, ◌≡◌, refl, Bool, true, false, none, some, List, [], ◌∷◌, arith, sum_of,
}
use edx_ecommerce.Base.Int.{pos, ◌+ℤ◌, ◌-ℤ◌}
use edx_ecommerce.Base.Action.{ok, returns}
use edx_ecommerce.Offer.{ConditionalOffer, site, percentage}
use edx_ecommerce.Refund.{issue_credit_for_enterprise_offer}
use edx_ecommerce.Refund.{
  RefundStatus, RefundLineStatus, OrderLine, RefundLine, RevokeModule, OrderDiscount, OrderInfo,
  State, Services, issue_credit, credit_discounts, find_offer, revoke_fulfillment_for_refund,
}
use edx_ecommerce.Refund.Approve.{approve, deny}
use edx_ecommerce.Refund.Payment.{after_answer, pay_back-source, paid_from}
use edx_ecommerce.Refund.Approve.{pay_back}
use edx_ecommerce.Refund.Credited.{IsCredited}
use edx_ecommerce.Refund.History.{Call, approve_call, deny_call, run, run-IsCredited}
use edx_ecommerce.Refund.Settlement.{after_revoking}
use edx_ecommerce.Refund.Lines.{IsServed}
use edx_ecommerce.Refund.Retry.{approve-revoked_again, approve-unsupported}
use edx_ecommerce.Refund.Denial.{after_denial, deny_lem}
use edx_ecommerce.Refund.Offers.{
  amount_on, issue_credit_for_enterprise_offer-partial, credit_discounts-whole,
}
use edx_ecommerce.Refund.Creation.{World, create_with_lines, add_refund, in_world, new_refund}
use edx_ecommerce.Refund.Once.{active, create_with_lines-once}

abbrev seat_line : ℕ → ℕ → OrderLine
seat_line i price = record {
  id = i;
  line_price_excl_tax = price;
  quantity = 1;
  course_key = some 7;
  entitlement_uuid = none;
}

abbrev line_in : RefundLineStatus → ℕ → RefundLine
line_in t i = record {
  order_line = seat_line i 5000;
  line_credit_excl_tax = 5000;
  quantity = 1;
  status = t;
}

-- The enrollment module: it supports every line here, and the LMS answers for line 1 only.
abbrev answers : OrderLine → Bool
answers o = o.id == 1

abbrev seats : RevokeModule
seats = record { supports_line = λ _. true; revoke_line = λ o. ok (answers o) }

abbrev site_offer : ConditionalOffer
site_offer = record {
  id = 4;
  offer_type = site;
  priority = 10;
  enterprise_customer_uuid = some 12;
  enterprise_customer_catalog_uuid = some 3;
  program_uuid = none;
  benefit_type = percentage;
  benefit_value = 100;
  max_global_applications = none;
  max_discount = none;
  max_user_discount = none;
  num_applications = pos 2;
  num_orders = pos 1;
  total_discount = pos 9000;
}

abbrev discounts : List OrderDiscount
discounts = record { offer_id = 4; amount = 2500; frequency = 1 } ∷ []

abbrev services : Services
services = record {
  issue_credit = λ src amount. ok 77;
  saves_offer = λ _. true;
  modules = seats ∷ [];
}

abbrev unsupported : Services
unsupported = record services { modules = [] }

abbrev refund_in : RefundStatus → List RefundLine → State
refund_in t ls = record {
  refund = record {
    order = record { source = some 5; discounts = discounts; num_lines = 2 };
    total_credit_excl_tax = 10000;
    status = t;
    lines = ls;
  };
  source_refunds = [];
  events = [];
  offers = site_offer ∷ [];
  post_refunds = 0;
}

abbrev open_lines : List RefundLine
open_lines = line_in RefundLineStatus.opened 1 ∷ line_in RefundLineStatus.opened 2 ∷ []

abbrev fresh : State
fresh = refund_in RefundStatus.opened open_lines

-- The credit is issued, one line is revoked and the other is not, and the offer is credited.
first_approval :
    let (r, s) = approve services true fresh in
    (r ≡ ok false)
    × (s.refund.status ≡ RefundStatus.revocation_error)
    × (s.events ≡ record { amount = 10000; reference = 77 } ∷ [])
    × (s.refund.lines
        ≡ line_in RefundLineStatus.complete 1 ∷ line_in RefundLineStatus.revocation_error 2 ∷ [])
unfolding approve issue_credit revoke_fulfillment_for_refund credit_discounts ◌-ℤ◌
first_approval = (refl, refl, refl, refl)

fresh-IsCredited : IsCredited fresh
fresh-IsCredited = record { count = omega arith; amounts = tt; booked = refl }

abbrev calls : List Call
calls = approve_call services true ∷ deny_call ∷ approve_call services false ∷ []

run-IsCredited_example : IsCredited (run calls fresh)
run-IsCredited_example = run-IsCredited calls fresh fresh-IsCredited

pay_back-source_example :
    pay_back services (paid_from (some 5) fresh) ≡ after_answer (ok 77) (paid_from (some 5) fresh)
pay_back-source_example = pay_back-source services fresh 5 refl

abbrev half_revoked : State
half_revoked =
    refund_in RefundStatus.revocation_error
      (line_in RefundLineStatus.complete 1 ∷ line_in RefundLineStatus.revocation_error 2 ∷ [])

approve-revoked_again_example :
    (returns (approve services true half_revoked).0 ≡ false)
    × ((approve services true half_revoked).1.refund.status ≡ RefundStatus.revocation_error)
approve-revoked_again_example = approve-revoked_again services half_revoked refl (omega arith) refl

abbrev paid_back : State
paid_back = refund_in RefundStatus.payment_refunded open_lines

approve-unsupported_example :
    approve unsupported true paid_back ≡ after_revoking (ok true, open_lines) paid_back
approve-unsupported_example =
    approve-unsupported unsupported paid_back refl (omega arith) (refl, (refl, tt))

served : (i : ℕ) → IsServed (seats ∷ []) answers (line_in RefundLineStatus.opened i)
unfolding revoke_fulfillment_for_refund
served i = record { module_class = seats; only = refl; answers = refl; pending = refl }

deny_lem_example : deny fresh ≡ after_denial RefundStatus.opened fresh
deny_lem_example = deny_lem fresh

abbrev closed : State
closed = refund_in RefundStatus.complete []

issue_credit_for_enterprise_offer-partial_example :
    issue_credit_for_enterprise_offer services closed ≡ (ok tt, closed)
issue_credit_for_enterprise_offer-partial_example =
    issue_credit_for_enterprise_offer-partial services closed (omega arith)

credit_discounts-whole_example :
    (o' : ConditionalOffer) × (find_offer 4
        (credit_discounts services true discounts (site_offer ∷ []))
      ≡ some o')
    × (o'.total_discount +ℤ pos (sum_of (amount_on 4) discounts) ≡ pos 9000)
unfolding find_offer
credit_discounts-whole_example =
    credit_discounts-whole services 4 discounts (site_offer ∷ []) site_offer (λ _. refl)
      ((site_offer, refl, refl), tt) refl

abbrev world : World
world = record { source_refunds = []; events = []; offers = []; post_refunds = 0 }

abbrev order : OrderInfo
order = record { source = some 5; discounts = []; num_lines = 2 }

abbrev first_refund : State
first_refund = in_world world (new_refund order (seat_line 2 5000 ∷ []))

create_with_lines-once_example : active 2 (add_refund (closed.refund ∷ []) first_refund).0 ≤ 1
unfolding create_with_lines
create_with_lines-once_example =
    create_with_lines-once services order (seat_line 2 5000 ∷ []) (closed.refund ∷ []) world 2
      {q = (ok true, first_refund)} refl (omega arith) (omega arith)
