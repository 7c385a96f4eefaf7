-- ===== src/Program/Rows.antt =====
-- The program as the Discovery Service describes it, and what the LMS knows of the user, for
-- ecommerce/programs/conditions.py. Texts such as SKUs, modes and keys are numbers.
use edx_ecommerce.Base.{ℕ, Bool, true, false, Option, List, ◌==◌, any, all, not, keep}
use edx_ecommerce.Base.Action.{Result, Exc, connection_error, timeout, http_error}

pub record Seat : Type 0 where
  pub sku : ℕ
  pub seat_type : ℕ

pub record CourseRun : Type 0 where
  pub key : ℕ
  pub seats : List Seat

-- `mode` is in lower case; the source makes it so.
pub record CourseEntitlement : Type 0 where
  pub sku : ℕ
  pub mode : ℕ

pub record Course : Type 0 where
  pub uuid : ℕ
  pub course_runs : List CourseRun
  pub entitlements : List CourseEntitlement

pub record Program : Type 0 where
  pub is_active : Bool
  pub applicable_seat_types : List ℕ
  pub courses : List Course

-- An enrollment of the user: `course_details.course_id` and `mode`.
pub record Enrollment : Type 0 where
  pub course_id : ℕ
  pub mode : ℕ

pub record Entitlement : Type 0 where
  pub course_uuid : ℕ
  pub mode : ℕ

-- What the LMS answers when it is asked for entitlements: rows, or a page with what
-- `deprecated_traverse_pagination` makes of it.
pub data Listing : Type 0 where
  rows : List Entitlement → Listing
  paged : Result (List Entitlement) → Listing

-- The caches and the services as they stand during one call. `client_program` is the answer of
-- `ProgramsApiClient.get_program`, in which a missing program is `none`.
pub record Lookups : Type 0 where
  pub client_program : Result (Option Program)
  pub has_owner : Bool
  pub enable_partial_program : Bool
  pub cached_enrollments : Option (List Enrollment)
  pub lms_enrollments : Result (List Enrollment)
  pub cached_entitlements : Option Listing
  pub lms_entitlements : Result Listing

-- `ReqConnectionError`, `HTTPError` and `Timeout`: they are the exceptions of `requests` that are
-- told apart here.
abbrev pub is_request_error : Exc → Bool
is_request_error connection_error = true
is_request_error timeout = true
is_request_error http_error = true
is_request_error _ = false

-- Sets of SKUs as lists.
abbrev pub member : ℕ → List ℕ → Bool
member x ys = any (λ y. x == y) ys

abbrev pub difference : List ℕ → List ℕ → List ℕ
difference xs ys = keep (λ x. not (member x ys)) xs

abbrev pub is_subset : List ℕ → List ℕ → Bool
is_subset xs ys = all (λ x. member x ys) xs
