-- ===== src/Enterprise/Tests.antt =====
-- Runs of the enterprise conditions at concrete inputs, and the theorems about them applied there.
use edx_ecommerce.Base.{ℕ, ◌≡◌, refl, arith, true, false, none, some, [], ◌∷◌}
use edx_ecommerce.Base.Action.{ok, connection_error}
use edx_ecommerce.Base.Action.{raised}
use edx_ecommerce.Base.Int.{pos}
use edx_ecommerce.Offer.{ConditionalOffer, OfferType, BenefitType}
use edx_ecommerce.Fulfillment.{OrderStatus}
use edx_ecommerce.Refund.{RefundStatus}
use edx_ecommerce.Voucher.{
  Usage, AssignmentStatus, OfferAssignment, Voucher, VoucherOffer, enterprise_offer,
}
use edx_ecommerce.Enterprise.{User, Basket, Services, World, sum_user_discounts_for_offer}
use edx_ecommerce.Enterprise.Condition.{is_satisfied}
use edx_ecommerce.Enterprise.Eligible.{IsEligible, is_satisfied-IsEligible}
use edx_ecommerce.Enterprise.Assignable.{is_satisfied_assignable, is_satisfied_assignable-overdrawn}

abbrev offer : ConditionalOffer
offer = record {
  id = 4;
  offer_type = OfferType.voucher;
  priority = 10;
  enterprise_customer_uuid = some 12;
  enterprise_customer_catalog_uuid = some 3;
  program_uuid = none;
  benefit_type = BenefitType.fixed;
  benefit_value = 7000;
  max_global_applications = some 2;
  max_discount = some (pos 20000);
  max_user_discount = some (pos 9000);
  num_applications = pos 1;
  num_orders = pos 1;
  total_discount = pos 12000;
}

abbrev learner : User
learner = record { id = 1; email = 21 }

-- The learner's order 5 took 3000 and was refunded, order 6 took 4000 and stands.
abbrev services : Services
services = record {
  refunds = record { user_id = 1; order_id = 5; status = RefundStatus.complete } ∷ [];
  discounts =
      record {
        offer_id = 4;
        order_id = 5;
        order_user = 1;
        order_status = OrderStatus.complete;
        amount = 3000;
      }
      ∷ record {
        offer_id = 4;
        order_id = 6;
        order_user = 1;
        order_status = OrderStatus.complete;
        amount = 4000;
      }
      ∷ [];
  assignments = [];
  percentage_of = λ value total. 0;
  parse_uuid = λ text. some text;
  enterprise_of_user = λ _. some 12;
  link_user = λ _ _. ok tt;
  catalog_contains_course_runs = λ _ _ _. ok true;
}

abbrev assignment : ℕ → OfferAssignment
assignment i = record { id = i; code = 99; user_email = i; status = AssignmentStatus.assigned }

abbrev overdrawn : Voucher
overdrawn = record {
  code = 99;
  usage = Usage.multi_use;
  num_orders = 1;
  offers =
      record { offer = offer; has_range = false; assignments = assignment 31 ∷ assignment 32 ∷ [] }
      ∷ [];
  by_date = [];
  applications = [];
}

abbrev full : Voucher
full = record overdrawn {
  offers = record { offer = offer; has_range = false; assignments = assignment 31 ∷ [] } ∷ [];
}

abbrev basket : Voucher → Basket
basket u = record {
  owner = some learner;
  lines =
      record {
        is_course_entitlement_product = false;
        is_executive_education_2u_product = false;
        course = some 7;
        course_info = raised connection_error;
        price = 5000;
      }
      ∷ [];
  request_catalog = none;
  attribute_catalog = some 3;
  vouchers = u ∷ [];
}

abbrev world : World
world = record { links = []; warnings = 0 }

spent : sum_user_discounts_for_offer services 1 offer ≡ 4000
unfolding sum_user_discounts_for_offer
spent = refl

satisfied : is_satisfied services offer (basket full) world ≡ (ok true, world)
unfolding is_satisfied
satisfied = refl

is_satisfied-IsEligible_example : IsEligible services offer (basket full) × (world ≡ world)
is_satisfied-IsEligible_example =
    is_satisfied-IsEligible services offer (basket full) world world satisfied

satisfied_again : is_satisfied services offer (basket overdrawn) world ≡ (ok true, world)
unfolding is_satisfied
satisfied_again = refl

abbrev two_assigned : VoucherOffer
two_assigned = record {
  offer = offer;
  has_range = false;
  assignments = assignment 31 ∷ assignment 32 ∷ [];
}

is_satisfied_assignable-overdrawn_example :
    is_satisfied_assignable services offer (basket overdrawn) world ≡ (ok true, world)
unfolding enterprise_offer
is_satisfied_assignable-overdrawn_example =
    is_satisfied_assignable-overdrawn services offer (basket overdrawn) world overdrawn []
      two_assigned satisfied_again refl refl refl (omega arith)
