-- ===== src/Fulfillment/Modules.antt =====
-- The fulfillment modules of ecommerce/extensions/fulfillment/modules.py: which lines each one
-- supports, and `fulfill_product`.
use edx_ecommerce.Base.{Bool, not, ◌&&◌, List, [], ◌∷◌, ⊤, ◌==◌, if◌then◌else◌, is_some, all}
use edx_ecommerce.Base.Action.{
  Result, ok, raised, Exc, connection_error, timeout, Action, raise, call, try_except, ◌>>=◌, ◌>>◌,
}
use edx_ecommerce.Fulfillment.Status.{LineStatus, same_line_status}
use edx_ecommerce.Fulfillment.Rows.{
  Product, Line, Services, is_seat_product, is_enrollment_code_product,
  is_course_entitlement_product, is_coupon_product, is_donation, is_executive_education_2u_product,
}

-- The classes listed in the setting `FULFILLMENT_MODULES`.
pub data Module : Type 0 where
  enrollment coupon enrollment_code course_entitlement donations executive_education : Module

-- The setting itself, in its order.
abbrev pub fulfillment_modules : List Module
fulfillment_modules =
    enrollment ∷ coupon ∷ enrollment_code ∷ course_entitlement ∷ donations ∷ executive_education
    ∷ []

unfoldable pub supports_line : Module → Product → Bool
supports_line enrollment p = is_seat_product p
supports_line coupon p = is_coupon_product p
supports_line enrollment_code p = is_enrollment_code_product p
supports_line course_entitlement p =
    is_course_entitlement_product p && not (is_executive_education_2u_product p)
supports_line donations p = is_donation p
supports_line executive_education p = is_executive_education_2u_product p

abbrev pub saved : Line → Result LineStatus → Result ⊤ × Line
saved l (ok s) = (ok tt, record l { status = s })
saved l (raised e) = (raised e, l)

-- `line.set_status(…)`
unfoldable pub set_status : Services → LineStatus → Action Line ⊤
set_status v new l = saved l (v.oscar.set_line_status l.status new)

-- A loop `for line in lines` whose body raises or not: a raise leaves the later lines alone.
abbrev pub then_rest : Result ⊤ × Line → List Line → Result ⊤ × List Line → Result ⊤ × List Line
then_rest (ok u, l) ls rest = (rest.0, l ∷ rest.1)
then_rest (raised e, l) ls rest = (raised e, l ∷ ls)

unfoldable pub for_each : Action Line ⊤ → Action (List Line) ⊤
for_each body [] = (ok tt, [])
for_each body (l ∷ ls) = then_rest (body l) ls (for_each body ls)

-- The status that the enrollment module sets for the answer of the LMS; other exceptions pass.
abbrev pub enrollment_failure : Services → Exc → Action Line ⊤
enrollment_failure v connection_error = set_status v LineStatus.network_error
enrollment_failure v timeout = set_status v LineStatus.timeout_error
enrollment_failure v e = raise e

unfoldable pub enroll : Services → Action Line ⊤
unfolding set_status
enroll v l =
    if is_some l.product.course_key
    then try_except
        (do
          code ← call (v.post_enrollment l)
          set_status v (if code == 200 then LineStatus.complete else LineStatus.server_error))
        (enrollment_failure v) l
    else set_status v LineStatus.configuration_error l

abbrev pub entitlement_failure : Services → Exc → Action Line ⊤
entitlement_failure v connection_error = set_status v LineStatus.network_error
entitlement_failure v timeout = set_status v LineStatus.network_error
entitlement_failure v e = set_status v LineStatus.server_error

unfoldable pub entitle : Services → Action Line ⊤
unfolding set_status
entitle v l =
    if is_some l.product.uuid
    then try_except (call (v.post_entitlement l) >> set_status v LineStatus.complete)
        (entitlement_failure v) l
    else set_status v LineStatus.configuration_error l

unfoldable pub make_codes : Services → Action Line ⊤
unfolding set_status
make_codes v l = (call (v.create_vouchers l) >> set_status v LineStatus.complete) l

-- The payload is made outside the `try`; its `else` branch sets the line to complete.
abbrev pub allocated : Services → Result ⊤ → Action Line ⊤
allocated v (ok u) = set_status v LineStatus.complete
allocated v (raised e) = set_status v LineStatus.server_error

unfoldable pub allocate : Services → Action Line ⊤
unfolding set_status
allocate v l = (call (v.allocation_payload l) >> allocated v (v.create_allocation l)) l

-- The lines that a module works on, and whether the order has the note `Fulfillment Details`.
pub record Work : Type 0 where
  pub lines : List Line
  pub has_details : Bool

unfoldable pub on_lines : Action (List Line) ⊤ → Action Work ⊤
on_lines m w = let (r, ls) = m w.lines in (r, record w { lines = ls })

abbrev pub is_complete : LineStatus → Bool
is_complete s = same_line_status s LineStatus.complete

abbrev pub all_complete : List Line → Bool
all_complete = all (λ l. is_complete l.status)

abbrev pub drop_details : Action Work ⊤
drop_details w = (ok tt, record w { has_details = w.has_details && not (all_complete w.lines) })

-- The executive education module first keeps the lines that it supports, which are all it is given.
unfoldable pub fulfill_executive : Services → Action Work ⊤
unfolding on_lines for_each allocate set_status
fulfill_executive v w =
    if w.has_details
    then (on_lines (for_each (allocate v)) >> drop_details) w
    else on_lines (for_each (set_status v LineStatus.server_error)) w

unfoldable pub fulfill_product : Services → Module → Action Work ⊤
unfolding on_lines for_each enroll entitle make_codes set_status fulfill_executive
fulfill_product v enrollment = on_lines (
    for_each
      (λ l. if v.has_api_key then enroll v l else set_status v LineStatus.configuration_error l))
fulfill_product v coupon = on_lines (for_each (set_status v LineStatus.complete))
fulfill_product v enrollment_code =
    on_lines (for_each (make_codes v)) >> call v.notify_enrollment_codes
fulfill_product v course_entitlement = on_lines (for_each (entitle v))
fulfill_product v donations = on_lines (for_each (set_status v LineStatus.complete))
fulfill_product v executive_education = fulfill_executive v
