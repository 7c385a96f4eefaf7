-- ===== src/Voucher/Tests.antt =====
-- Runs of the vouchers at concrete inputs, and the theorems about them applied there.
use edx_ecommerce.Base.{ℕ, ◌≡◌, refl, true, false, none, some, List, [], ◌∷◌, ◌++◌}
use edx_ecommerce.Base.Int.{pos}
use edx_ecommerce.Offer.{ConditionalOffer, OfferType, BenefitType}
use edx_ecommerce.Voucher.{
  Usage, AssignmentStatus, OfferAssignment, VoucherOffer, Voucher, num_assignments,
}
use edx_ecommerce.Voucher.Slots.{
  calculate_available_slots, slots_available_for_assignment, one_more_order, slots-redemption,
}
use edx_ecommerce.Voucher.Customer.{is_available_to_user, is_available_to_user-one, no_message}

abbrev pub enterprise : ConditionalOffer
enterprise = record {
  id = 4;
  offer_type = OfferType.voucher;
  priority = 10;
  enterprise_customer_uuid = some 12;
  enterprise_customer_catalog_uuid = some 3;
  program_uuid = none;
  benefit_type = BenefitType.percentage;
  benefit_value = 100;
  max_global_applications = some 5;
  max_discount = none;
  max_user_discount = none;
  num_applications = pos 1;
  num_orders = pos 1;
  total_discount = pos 9000;
}

abbrev pub assignment : ℕ → ℕ → AssignmentStatus → OfferAssignment
assignment i email t = record { id = i; code = 99; user_email = email; status = t }

abbrev assignments : List OfferAssignment
assignments =
    assignment 1 21 AssignmentStatus.assigned
    ∷ assignment 2 22 AssignmentStatus.redeemed
    ∷ assignment 3 23 AssignmentStatus.email_pending
    ∷ []

abbrev pub voucher_offer : VoucherOffer
voucher_offer = record { offer = enterprise; has_range = false; assignments = assignments }

abbrev pub voucher : Usage → Voucher
voucher usage = record {
  code = 99;
  usage = usage;
  num_orders = 1;
  offers = voucher_offer ∷ [];
  by_date = voucher_offer ∷ [];
  applications = record { user = some 2; user_email = 22 } ∷ [];
}

-- Five uses, less one order and two assignments that are neither redeemed nor revoked.
slots_left : slots_available_for_assignment (voucher Usage.multi_use) ≡ some (pos 2)
unfolding slots_available_for_assignment
slots_left = refl

slots-redemption_example :
    calculate_available_slots (one_more_order (voucher Usage.multi_use)) (some 5) (
      num_assignments 99 (
        []
        ++ assignment 1 21 AssignmentStatus.redeemed
          ∷ assignment 3 23 AssignmentStatus.assigned
          ∷ []))
    ≡ calculate_available_slots (voucher Usage.multi_use) (some 5) (
        num_assignments 99 (
          []
          ++ assignment 1 21 AssignmentStatus.assigned
            ∷ assignment 3 23 AssignmentStatus.assigned
            ∷ []))
slots-redemption_example =
    slots-redemption (voucher Usage.multi_use) (some 5) []
      (assignment 3 23 AssignmentStatus.assigned ∷ []) (assignment 1 21 AssignmentStatus.assigned)
      refl

is_available_to_user-one_example :
    (is_available_to_user (true, no_message) (voucher Usage.multi_use_per_customer) (some 3)).0
    ≡ false
is_available_to_user-one_example =
    is_available_to_user-one (true, no_message) (voucher Usage.multi_use_per_customer) (some 2)
      (some 3) refl refl
