-- ===== src/Http.antt =====
-- The HTTP side of the service: problem.ts, the handlers of the Identity router, and app.ts. A
-- handler is a tree: it responds, throws, or waits for a call of the engine or of the database and
-- goes on with whatever the call returns or raises.
pub mod Scope
pub mod Router
pub mod Monitor
pub mod Permissions
pub mod Responses
pub mod Boundary
pub mod Responding
pub mod Reached
pub mod Guarded
pub mod Enumeration
pub mod Listing
pub mod Secret
pub mod Assets
mod Tests
use user_service_platform.Prelude.{
  ℕ, Bool, true, false, ◌&&◌, List, [], ◌∷◌, ◌++◌, Option, none, some, leb,
}
use user_service_platform.Prelude.Int.{ℤ}
use user_service_platform.Text.{Text, codes}
use user_service_platform.Json.{Json}
use user_service_platform.Identity.Session.{AuthenticatedUser}
use user_service_platform.Consumer.Verifier.{Jwk}

-- `ProblemCode`.
pub data ProblemCode : Type 0 where
  bad_request not_found internal_error registration_disabled email_password_disabled : ProblemCode
  email_verification_required invalid_credentials verification_invalid reset_invalid : ProblemCode
  unauthenticated forbidden admin_already_bootstrapped admin_email_conflict : ProblemCode

abbrev pub code_name : ProblemCode → Text
code_name bad_request = codes "bad-request"
code_name not_found = codes "not-found"
code_name internal_error = codes "internal-error"
code_name registration_disabled = codes "registration-disabled"
code_name email_password_disabled = codes "email-password-disabled"
code_name email_verification_required = codes "email-verification-required"
code_name invalid_credentials = codes "invalid-credentials"
code_name verification_invalid = codes "verification-invalid"
code_name reset_invalid = codes "reset-invalid"
code_name unauthenticated = codes "unauthenticated"
code_name forbidden = codes "forbidden"
code_name admin_already_bootstrapped = codes "admin-already-bootstrapped"
code_name admin_email_conflict = codes "admin-email-conflict"

-- `ProblemDetails`.
pub record Problem : Type 0 where
  pub kind : Text
  pub title : Text
  pub status : ℕ
  pub detail : Option Text
  pub code : ProblemCode
  pub instance_path : Option Text

unfoldable pub create_problem : ℕ → ProblemCode → Text → Option Text → Option Text → Problem
create_problem status code title detail path = record {
  kind = codes "urn:problem:" ++ code_name code;
  title = title;
  status = status;
  detail = detail;
  code = code;
  instance_path = path;
}

-- `AdminUser`, `AdminMe` and `AdminBootstrapResult`.
pub record AdminUser : Type 0 where
  pub id : Text
  pub email : Text
  pub email_verified : Bool
  pub role : Text

-- A row of the user table, as it is projected.
pub record Row : Type 0 where
  pub id : Text
  pub email : Text
  pub email_verified : Bool
  pub role : Option Text

pub data Body : Type 0 where
  problem_body : Problem → Body
  user_body : AuthenticatedUser → Body
  status_ok email_verified_body : Body
  token_body : Text → ℤ → Body
  keys_body : List Jwk → Body
  admin_body : AdminUser → Body
  users_body : List AdminUser → ℕ → Body

pub record Response : Type 0 where
  pub status : ℕ
  pub body : Body
  pub cache_control : Option Text
  pub cookies : List Text

-- What a call raises, as far as the handlers read it: `statusCode` and the `code` of the body.
pub record Raised : Type 0 where
  pub status_code : Option ℕ
  pub code : Option Text

-- An answer of the engine in response mode: its status, its body where that is JSON, and its cookies.
pub record EngineResponse : Type 0 where
  pub status : ℕ
  pub body : Option Json
  pub cookies : List Text

-- `response.ok`
abbrev pub is_ok : EngineResponse → Bool
is_ok r = leb 200 r.status && leb r.status 299

pub data Call : Type 0 where
  sign_up_email : Text → Text → Text → Call
  sign_in_email reset_password_with : Text → Text → Call
  verify_email_with send_verification_email request_password_reset_for : Text → Call
  sign_out_session get_session get_token get_jwks : Call
  user_has_permission select_user : Text → Call
  select_users : ℕ → ℕ → Option Text → Call
  count_users : Option Text → Call
  select_admin : Call
  create_user : Text → Text → Text → Call

abbrev pub Answer : Call → Type 0
Answer (sign_up_email name email password) = EngineResponse
Answer (sign_in_email email password) = EngineResponse
Answer (reset_password_with password token) = EngineResponse
Answer (verify_email_with token) = EngineResponse
Answer (send_verification_email email) = EngineResponse
Answer (request_password_reset_for email) = EngineResponse
Answer sign_out_session = EngineResponse
Answer get_session = Json
Answer get_token = EngineResponse
Answer get_jwks = EngineResponse
Answer (user_has_permission id) = Json
Answer (select_user id) = List Row
Answer (select_users limit offset pattern) = List Row
Answer (count_users pattern) = List ℕ
Answer select_admin = List Text
Answer (create_user name email password) = Json

pub data Reply (A : Type 0) : Type 0 where
  returned : A → Reply A
  raised : Raised → Reply A

-- `SessionResolvePhase`: where the resolution of a session failed, which is logged.
pub data Phase : Type 0 where
  config_phase auth_phase session_phase : Phase

-- `throws` with the phase that was logged first, if the session's resolution failed.
pub data Run : Type 0 where
  responds : Response → Run
  throws : Option Phase → Run
  awaits : (call : Call) → (Reply (Answer call) → Run) → Run
