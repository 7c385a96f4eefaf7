-- ===== src/Fulfillment/Revocation.antt =====
-- `revoke_line` of the fulfillment modules, and the modules as a refund sees them.
use edx_ecommerce.Base.{ℕ, Bool, true, false, ◌&&◌, List, ⊤, ◌==◌, if◌then◌else◌, is_some, map}
use edx_ecommerce.Base.Action.{Result, ok, raised, not_implemented}
use edx_ecommerce.Fulfillment.Rows.{Line, Services}
use edx_ecommerce.Fulfillment.Modules.{
  Module, enrollment, coupon, enrollment_code, course_entitlement, donations, executive_education,
}
use edx_ecommerce.Refund.{OrderLine, RevokeModule}
use edx_ecommerce.Fulfillment.Modules.{supports_line, fulfillment_modules}

-- `except Exception: …` followed by `return False`.
abbrev pub or_false : Result Bool → Result Bool
or_false (ok b) = ok b
or_false (raised e) = ok false

-- The answer of the LMS to a revocation: 200, or a status 400 that can be recovered from.
abbrev pub revocation_answer : Result ℕ → Result Bool → Result Bool
revocation_answer (ok code) mismatch =
    if code == 200
    then ok true
    else elim mismatch [ ok b ↦ ok ((code == 400) && b) | raised e ↦ raised e ]
revocation_answer (raised e) mismatch = raised e

abbrev pub revoked : Result ⊤ → Result Bool
revoked (ok u) = ok true
revoked (raised e) = raised e

unfoldable pub revoke_line : Services → Module → Line → Result Bool
revoke_line v enrollment l =
    if is_some l.product.course_key
    then or_false (revocation_answer (v.revoke_enrollment l) (v.is_mode_mismatch l))
    else ok false
revoke_line v coupon l = raised not_implemented
revoke_line v enrollment_code l = raised not_implemented
revoke_line v course_entitlement l =
    if is_some l.product.uuid then or_false (revoked (v.revoke_entitlement l)) else ok false
revoke_line v donations l = ok true
revoke_line v executive_education l = raised not_implemented

-- The modules for a refund, whose lines name their order lines by `line_of`.
abbrev pub revoke_module : Services → (OrderLine → Line) → Module → RevokeModule
revoke_module v line_of m = record {
  supports_line = λ o. supports_line m (line_of o).product;
  revoke_line = λ o. revoke_line v m (line_of o);
}

unfoldable pub revoke_modules : Services → (OrderLine → Line) → List RevokeModule
unfolding supports_line revoke_line
revoke_modules v line_of = map (revoke_module v line_of) fulfillment_modules
