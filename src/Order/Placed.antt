-- ===== src/Order/Placed.antt =====
-- `UserAlreadyPlacedOrder` of ecommerce/extensions/order/utils.py.
use edx_ecommerce.Base.{
  ℕ, Bool, true, false, not, ◌&&◌, ◌||◌, is_some, Option, none, some, List, [], ◌∷◌, ◌==◌,
  if◌then◌else◌, any, keep, ⊤,
}
use edx_ecommerce.Base.Action.{Result, ok, raised, Exc, connection_error, timeout, http_error}
use edx_ecommerce.Refund.{RefundLineStatus}

-- An order line with the user of its order, the statuses of its refund lines, and the value of its
-- entitlement attribute, whose lookup may raise.
pub record Line : Type 0 where
  pub product : ℕ
  pub user : ℕ
  pub is_course_entitlement_product : Bool
  pub refund_statuses : List RefundLineStatus
  pub entitlement_uuid : Result ℕ

-- The lookup of the entitlement option, the expiry dates of entitlements that the cache has, and the
-- LMS's answers; `true` is expired.
pub record Entitlements : Type 0 where
  pub entitlement_option : Result ⊤
  pub cached : ℕ → Option Bool
  pub lms : ℕ → Result Bool

abbrev pub is_complete : RefundLineStatus → Bool
is_complete RefundLineStatus.complete = true
is_complete _ = false

abbrev pub is_order_line_refunded : Line → Bool
is_order_line_refunded l = any is_complete l.refund_statuses

-- What the call writes to the cache is what it would be given again.
unfoldable pub is_entitlement_expired : Entitlements → ℕ → Result Bool
is_entitlement_expired v uuid = elim (v.cached uuid) [
  | some expired ↦ ok expired
  | none ↦ v.lms uuid
]

-- `ConnectTimeout`, `ReqConnectionError` or `HTTPError`.
abbrev pub is_network_error : Exc → Bool
is_network_error connection_error = true
is_network_error timeout = true
is_network_error http_error = true
is_network_error _ = false

-- Whether a line that is not refunded counts as a purchase.
abbrev pub by_expiry : Result Bool → Result Bool
by_expiry (ok expired) = ok (not expired)
by_expiry (raised e) = if is_network_error e then ok false else raised e

unfoldable pub counts : Entitlements → Line → Result Bool
unfolding is_entitlement_expired
counts v l = if not l.is_course_entitlement_product then ok true else elim l.entitlement_uuid [
  | raised e ↦ raised e
  | ok uuid ↦ by_expiry (is_entitlement_expired v uuid)
]

-- The loop over the lines; `return True` ends it, and so does what raises.
abbrev pub then_next : Result Bool → Result Bool → Result Bool
then_next (ok true) rest = ok true
then_next (ok false) rest = rest
then_next (raised e) rest = raised e

unfoldable pub any_counts : Entitlements → List Line → Result Bool
unfolding counts
any_counts v [] = ok false
any_counts v (l ∷ ls) =
    let rest = any_counts v ls in
    if is_order_line_refunded l then rest else then_next (counts v l) rest

abbrev pub is_line_of : (user product : ℕ) → Line → Bool
is_line_of user product l = (l.product == product) && (l.user == user)

abbrev pub then_check : Result ⊤ → Result Bool → Result Bool
then_check (ok u) check = check
then_check (raised e) check = raised e

unfoldable pub user_already_placed_order :
    (disabled : Bool) → Entitlements → List Line → (user product : ℕ) → Result Bool
unfolding any_counts
user_already_placed_order disabled v lines user product =
    if disabled
    then ok false
    else then_check v.entitlement_option (any_counts v (keep (is_line_of user product) lines))

-- What is known of an entitlement: the cache has it, or else the LMS answers.
abbrev pub is_false : Result Bool → Bool
is_false (ok b) = not b
is_false (raised e) = false

abbrev pub is_known_current_by : Option Bool → Result Bool → Bool
is_known_current_by none lms = is_false lms
is_known_current_by (some expired) lms = not expired

abbrev pub is_known_current : Entitlements → Result ℕ → Bool
is_known_current v (raised e) = false
is_known_current v (ok uuid) = is_known_current_by (v.cached uuid) (v.lms uuid)

-- The line counts as a purchase: no refund of it is complete, and it is no entitlement, or one that
-- is known not to have expired.
abbrev pub stands : Entitlements → Line → Bool
stands v l =
    not (any (λ t. is_complete t) l.refund_statuses)
    && (not l.is_course_entitlement_product || is_known_current v l.entitlement_uuid)

-- The line has the attribute if it is an entitlement, and what the LMS raises of it is an error of
-- the network.
abbrev pub is_network_answer : Result Bool → Bool
is_network_answer (ok b) = true
is_network_answer (raised e) = is_network_error e

abbrev pub is_answered : Entitlements → Result ℕ → Bool
is_answered v (raised e) = false
is_answered v (ok uuid) = is_some (v.cached uuid) || is_network_answer (v.lms uuid)

abbrev pub is_told : Entitlements → Line → Bool
is_told v l = not l.is_course_entitlement_product || is_answered v l.entitlement_uuid
