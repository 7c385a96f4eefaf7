-- ===== src/Enterprise/Rows.antt =====
-- Baskets, discounts and services, as far as the enterprise conditions read them.
use edx_ecommerce.Base.{ℕ, Bool, Option, List, ⊤}
use edx_ecommerce.Base.Action.{Result}
use edx_ecommerce.Fulfillment.{OrderStatus}
use edx_ecommerce.Refund.{RefundStatus}
use edx_ecommerce.Voucher.{Voucher, OfferAssignment}

-- A row of Oscar's `OrderDiscount`, with the user and the status of its order.
pub record DiscountRow : Type 0 where
  pub offer_id : ℕ
  pub order_id : ℕ
  pub order_user : ℕ
  pub order_status : OrderStatus
  pub amount : ℕ

pub record RefundRow : Type 0 where
  pub user_id : ℕ
  pub order_id : ℕ
  pub status : RefundStatus

-- A basket line; `course_info` is the outcome of `get_course_info_from_catalog(…)['key']`, and
-- `course` the id of the product's course run, if it has one.
pub record Line : Type 0 where
  pub is_course_entitlement_product : Bool
  pub is_executive_education_2u_product : Bool
  pub course : Option ℕ
  pub course_info : Result ℕ
  pub price : ℕ

pub record User : Type 0 where
  pub id : ℕ
  pub email : ℕ

-- `request_catalog` and `attribute_catalog` are the texts of the request's parameter `catalog` and of
-- the basket's attribute; an empty text counts as none.
pub record Basket : Type 0 where
  pub owner : Option User
  pub lines : List Line
  pub request_catalog : Option ℕ
  pub attribute_catalog : Option ℕ
  pub vouchers : List Voucher

-- What the condition reads elsewhere. `percentage_of` is `get_discount_value` on floats, and
-- `parse_uuid` is `UUID(…)`, with none for a `ValueError`.
pub record Services : Type 0 where
  pub refunds : List RefundRow
  pub discounts : List DiscountRow
  pub assignments : List OfferAssignment
  pub percentage_of : (value total : ℕ) → ℕ
  pub parse_uuid : ℕ → Option ℕ
  pub enterprise_of_user : User → Option ℕ
  pub link_user : (enterprise : Option ℕ) → User → Result ⊤
  pub catalog_contains_course_runs :
      List ℕ → (enterprise : Option ℕ) → (catalog : Option ℕ) → Result Bool

-- What the condition writes: the links of users to enterprises, and how often it warned the user.
pub record World : Type 0 where
  pub links : List (Option ℕ × ℕ)
  pub warnings : ℕ
