-- ===== src/Fulfillment/Rows.antt =====
-- Products and order lines, and what fulfillment calls outside this repository.
-- `Product` is that of ecommerce/extensions/catalogue/models.py.
use edx_ecommerce.Base.{ℕ, Bool, true, false, Option, some, List, ⊤}
use edx_ecommerce.Base.Action.{Result}
use edx_ecommerce.Fulfillment.Status.{LineStatus, Oscar}

-- The names of product classes that the code tells apart.
pub data ProductClass : Type 0 where
  seat enrollment_code course_entitlement coupon donation other_class : ProductClass

-- The `certificate_type` attribute, as far as `is_executive_education_2u_product` reads it.
pub data CertificateType : Type 0 where
  paid_executive_education unpaid_executive_education other_certificate : CertificateType

pub record Product : Type 0 where
  pub id : ℕ
  pub product_class : ProductClass
  pub certificate_type : Option CertificateType
  pub course_key : Option ℕ
  pub uuid : Option ℕ

abbrev pub is_seat_product : Product → Bool
is_seat_product p = elim p.product_class [ seat ↦ true | _ ↦ false ]

abbrev pub is_enrollment_code_product : Product → Bool
is_enrollment_code_product p = elim p.product_class [ enrollment_code ↦ true | _ ↦ false ]

abbrev pub is_course_entitlement_product : Product → Bool
is_course_entitlement_product p = elim p.product_class [ course_entitlement ↦ true | _ ↦ false ]

abbrev pub is_coupon_product : Product → Bool
is_coupon_product p = elim p.product_class [ coupon ↦ true | _ ↦ false ]

abbrev pub is_donation : Product → Bool
is_donation p = elim p.product_class [ donation ↦ true | _ ↦ false ]

abbrev pub is_executive_certificate : Option CertificateType → Bool
is_executive_certificate (some paid_executive_education) = true
is_executive_certificate (some unpaid_executive_education) = true
is_executive_certificate _ = false

abbrev pub is_executive_education_2u_product : Product → Bool
is_executive_education_2u_product p = is_executive_certificate p.certificate_type

pub record Line : Type 0 where
  pub id : ℕ
  pub product : Product
  pub status : LineStatus

-- What the services answer while one order is fulfilled. `post_enrollment` and `revoke_enrollment`
-- give the status code of the LMS's answer; `is_mode_mismatch` tells whether the message of the
-- answer to a revocation has "Enrollment mode mismatch".
pub record Services : Type 0 where
  pub oscar : Oscar
  pub has_api_key : Bool
  pub post_enrollment : Line → Result ℕ
  pub post_entitlement : Line → Result ℕ
  pub create_vouchers : Line → Result ⊤
  pub notify_enrollment_codes : Result ⊤
  pub allocation_payload : Line → Result ⊤
  pub create_allocation : Line → Result ⊤
  pub revoke_enrollment : Line → Result ℕ
  pub is_mode_mismatch : Line → Result Bool
  pub revoke_entitlement : Line → Result ⊤
  -- `list(set(…))`: the same lines, in an order that Python leaves open.
  pub arrange : List Line → List Line
