-- ===== src/Assign/Tests.antt =====
-- The assignment of codes at concrete inputs, and the theorem about it applied there.
use edx_ecommerce.Base.{ℕ, ◌≡◌, refl, true, false, List, [], ◌∷◌, all}
use edx_ecommerce.Base.Action.{ok, raised, validation_error}
use edx_ecommerce.Voucher.{Usage, Voucher, enterprise_offer}
use edx_ecommerce.Voucher.Tests.{voucher}
use edx_ecommerce.Assign.Validate.{Available, Request, validate, candidates}
use edx_ecommerce.Base.{some, any}
use edx_ecommerce.Base.Action.{timeout}
use edx_ecommerce.Base.Int.{pos, ◌+ℤ◌}
use edx_ecommerce.Voucher.{OfferAssignment, AssignmentStatus, num_assignments}
use edx_ecommerce.Voucher.Tests.{assignment}
use edx_ecommerce.Assign.Revoke
use edx_ecommerce.Voucher.Slots.{calculate_available_slots}
use edx_ecommerce.Assign.Revoke.{Outside, item, is_unredeemed, bulk_create, create-slots}
use edx_ecommerce.Assign.Create.{create}
use edx_ecommerce.Assign.Exact.{emails_of, start, create-emails}
use edx_ecommerce.Assign.Fits.{is_within}

-- Two vouchers: the first has two slots left of its five, and so has the second.
abbrev other_voucher : Voucher
other_voucher = record (voucher Usage.multi_use) { code = 98; num_orders = 3 }

abbrev request : List ℕ → Request
request emails = record {
  codes = [];
  emails = emails;
  vouchers = voucher Usage.multi_use ∷ other_voucher ∷ [];
  assignments = [];
  applications = [];
}

abbrev entries : List Available
entries = record { code = 99; num_slots = 2 } ∷ record { code = 98; num_slots = 1 } ∷ []

not_enough : validate (request (1 ∷ 2 ∷ 3 ∷ 4 ∷ 5 ∷ [])) ≡ raised validation_error
unfolding validate enterprise_offer
not_enough = refl

create-emails_example :
    ((create false entries (start (31 ∷ 32 ∷ 33 ∷ []))).0 ≡ ok tt)
    × (emails_of (create false entries (start (31 ∷ 32 ∷ 33 ∷ []))).1.offer_assignments
        ≡ 31 ∷ 32 ∷ 33 ∷ [])
    × (all (is_within (candidates (request (31 ∷ 32 ∷ 33 ∷ [])) Usage.multi_use)) entries ≡ true)
unfolding validate enterprise_offer
create-emails_example =
    create-emails (request (31 ∷ 32 ∷ 33 ∷ [])) Usage.multi_use entries refl refl

-- The user 21 has one assignment that could be redeemed.
abbrev rows : List OfferAssignment
rows = assignment 1 21 AssignmentStatus.assigned ∷ assignment 2 22 AssignmentStatus.redeemed ∷ []

abbrev outside : Outside
outside = record { coupon_codes = 99 ∷ []; save = λ a. ok tt; send_mail = λ i. raised timeout }

revoked_twice :
    (bulk_create outside (item 99 21 true ∷ item 99 22 true ∷ item 99 21 false ∷ []) rows).0
    ≡ true ∷ false ∷ false ∷ []
unfolding bulk_create
revoked_twice = refl

create-slots_example :
    ((Revoke.create outside (item 99 21 true) rows).0 ≡ true)
    × (any (is_unredeemed 99 21) (Revoke.create outside (item 99 21 true) rows).1 ≡ false)
    × (calculate_available_slots
          (voucher Usage.multi_use)
          (some 5)
          (num_assignments 99 (Revoke.create outside (item 99 21 true) rows).1)
        ≡ calculate_available_slots (voucher Usage.multi_use) (some 5) 1 +ℤ pos 1)
create-slots_example =
    create-slots outside (λ a. refl) (voucher Usage.multi_use) (some 5) 21 true rows refl
