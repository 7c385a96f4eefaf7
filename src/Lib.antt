-- ===== src/Lib.antt =====
-- A model of the core of ecommerce: orders are fulfilled, refunds take fulfillment and payment back,
-- vouchers and offers give discounts, enterprises limit them, coupons are created, and a checkout
-- places an order and hands it to fulfillment.
--
-- Parts and how they interact
--   - Base: Booleans and numbers (Bools), Python lists (Lists), signed amounts (Int), calls that
--     return or raise and keep what they wrote (Action), and the rules for what a call keeps (Keeps)
--     and for the call after one that returned or raised (Bind).
--   - Offer: ecommerce/extensions/offer. Rows has the columns of `ConditionalOffer` with those of its
--     condition and benefit. Applicable is `Benefit.get_applicable_lines` with its helpers, Range is
--     `Range` with `validate_credit_seat_type`, Satisfied is `is_condition_satisfied` and `is_current`
--     of `ConditionalOffer` (all in models.py); Applicator is `Applicator.get_offers` (applicator.py).
--     Unvisited and Priority prove.
--   - Refund: ecommerce/extensions/refund/models.py and api.py. Status is `StatusMixin` with the
--     pipelines of ecommerce/settings/_oscar.py; Rows is what a refund reads and writes; Credit is
--     `_issue_credit` and `_issue_credit_for_enterprise_offer`; Revoke is
--     `revoke_fulfillment_for_refund` of ecommerce/extensions/fulfillment/api.py; Approve is `approve`
--     and `deny`; Creation is `create_with_lines`, `create_refunds` and
--     `create_refunds_for_entitlement`. Payment, Credited, History, Settlement, Lines, Retry, Frame,
--     Once, Denial and Offers prove.
--   - Fulfillment: ecommerce/extensions/fulfillment. Status and Rows are the statuses, products, lines
--     and services; Modules is `supports_line` and `fulfill_product` of modules.py, Revocation its
--     `revoke_line`; Order is `fulfill_order` of api.py. Outcome, Serviced and Success prove what it
--     leads to, Refunds joins the modules' `revoke_line` with the refund's `approve`.
--   - Voucher: ecommerce/extensions/voucher/models.py. Rows has the vouchers, their offers and the
--     assignments of codes, Slots the slots for assignments, Customer `is_available_to_user`, Redeemed
--     `not_redeemed_assignment_ids`.
--   - Enterprise: ecommerce/enterprise/conditions.py. Limits has the limits of an offer, Condition is
--     `EnterpriseCustomerCondition.is_satisfied`, Assignable the condition for assigned codes, which
--     asks the voucher for its slots; Eligible proves what the first one asks.
--   - Basket: ecommerce/extensions/basket. Prepare is `prepare_basket` and what it calls in utils.py,
--     with `flush` and `clear_vouchers` of models.py; Get is `get_basket` of models.py. Of the events
--     for products and bundles only what the lookup of the program raises is kept. Prepared proves.
--   - Order: ecommerce/extensions/order. Number is `OrderNumberGenerator` and Placed
--     `UserAlreadyPlacedOrder` of utils.py, Creator is its `create_order_model`; Shipping is
--     `EventHandler` of processing.py with `post_checkout_callback` of
--     ecommerce/extensions/fulfillment/signals.py, which runs Fulfillment. Text has the decimal digits
--     and `split` that Number needs.
--   - Program: ecommerce/programs/conditions.py and utils.py. Rows is the program and what the LMS
--     knows of the user, Condition is `ProgramCourseRunSeatsCondition.is_satisfied` with the decorator
--     of ecommerce/extensions/offer/decorators.py; Covered proves what it asks of the basket.
--   - Checkout: ecommerce/extensions/checkout/mixins.py. Codes is what an order does to the
--     assignments of a code, with `update_assignments_for_multi_use_per_customer` of
--     ecommerce/extensions/offer/utils.py; Placement is `place_free_order` down to the signal that
--     Order receives, Payment is `handle_payment`, `create_order` and `handle_post_order`. Counter
--     relates the assignments to a pair of counters, Complete proves what comes of a checkout.
--   - Coupon: ecommerce/extensions/voucher/utils.py, with `Voucher.save` of models.py beside it in
--     Clean. Code is `_generate_code_string`, Create the creation of vouchers with the validation,
--     Enterprise `create_enterprise_vouchers`, Rows their tables; Names, Ends, Links and Attached
--     prove.
--   - Assign: `CouponCodeAssignmentSerializer` of ecommerce/extensions/api/serializers.py. Validate
--     and Create are its methods of these names; Fits and Exact relate them to each other and to the
--     slots of Voucher. Revoke is `CouponCodeRevokeSerializer` with its bulk form.
--   - Iap: ecommerce/extensions/iap/processors. Response is `handle_processor_response` of both
--     stores; Unique proves what it keeps of the recorded responses.
--   - Mixin: ecommerce/extensions/offer/mixins.py and dynamic_conditional_offer.py. Lines has the
--     lines that conditions and benefits without a range discount and consume, for program offers;
--     Dynamic the offers of a token.
--   - Payment: ecommerce/extensions/payment/utils.py. Truncate is `middle_truncate` and
--     `clean_field_value`.
--   - Core: ecommerce/core/utils.py. Pages is `deprecated_traverse_pagination`.
--   The modules named Tests run the code at concrete inputs and apply the theorems there.
--
-- State and calls
--   A method is a function of the rows it reads and writes (`Action`): it returns or raises, and in
--   both cases gives the rows as they are saved then. Loops over the rows of a query are structural
--   recursions on its list. Two loops have fuel: `traverse` of Core.Pages, where as many rounds as
--   there are pages, and one more, are enough, and `generate` of Coupon.Code, whose fuel is the depth
--   at which Python ends a recursion; `emit` of Order.Text takes as many rounds as the number it
--   prints, which are enough. Identifiers, codes, e-mail addresses and UUIDs are numbers, as the code
--   only compares them. Amounts are natural numbers of cents, and signed ones where the code subtracts
--   without a check; in Enterprise the unit divides a cent, so that it counts the products of floats
--   as well. Logging, translation and analytics are left out.
--
-- What is taken from outside
--   The calls of payment processors, the LMS, the catalog and enterprise services, the caches, mail
--   and Oscar's own methods are fields of the `Services` and `Sources` records or arguments, with any
--   answer and, where it matters, any exception. `OscarLaws` states what Oscar documents of
--   `set_status` and `available_statuses` of orders and lines: a status of the pipeline and the status
--   itself are accepted. `list(set(lines))` of `fulfill_order` is a parameter `arrange`, as Python
--   leaves its order open.
--
-- What is not modelled
--   The other payment processors (they run on answers of other systems), the other serializers, views,
--   templates, commands and clients of other services, the attributes of referrals, the validation of
--   offers and benefits, the coupons without an enterprise, and the catalogue beyond the predicates
--   that fulfillment asks.
pub mod Base
pub mod Offer
pub mod Refund
pub mod Fulfillment
pub mod Voucher
pub mod Enterprise
pub mod Basket
pub mod Order
pub mod Program
pub mod Checkout
pub mod Payment
pub mod Coupon
pub mod Assign
pub mod Iap
pub mod Mixin
pub mod Core
