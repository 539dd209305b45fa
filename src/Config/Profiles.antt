-- ===== src/Config/Profiles.antt =====
-- profiles.ts: the names of the non-secret variables and the versioned profile of each environment.
use user_service_platform.Prelude.{[]}
use user_service_platform.Text.{Text, codes}

-- `NonSecretVarName`.
pub data Var : Type 0 where
  environment : Var
  auth_registration_enabled auth_email_password_enabled auth_require_email_verification : Var
  auth_mail_transport auth_mail_from auth_app_name auth_mail_allowlist : Var
  auth_verify_email_action_url auth_reset_password_action_url : Var
  auth_jwt_issuer auth_jwt_audience auth_jwt_ttl_seconds auth_gateway_origins : Var
  smtp_host smtp_port smtp_secure : Var

abbrev pub var_name : Var → Text
var_name environment = codes "ENVIRONMENT"
var_name auth_registration_enabled = codes "AUTH_REGISTRATION_ENABLED"
var_name auth_email_password_enabled = codes "AUTH_EMAIL_PASSWORD_ENABLED"
var_name auth_require_email_verification = codes "AUTH_REQUIRE_EMAIL_VERIFICATION"
var_name auth_mail_transport = codes "AUTH_MAIL_TRANSPORT"
var_name auth_mail_from = codes "AUTH_MAIL_FROM"
var_name auth_app_name = codes "AUTH_APP_NAME"
var_name auth_mail_allowlist = codes "AUTH_MAIL_ALLOWLIST"
var_name auth_verify_email_action_url = codes "AUTH_VERIFY_EMAIL_ACTION_URL"
var_name auth_reset_password_action_url = codes "AUTH_RESET_PASSWORD_ACTION_URL"
var_name auth_jwt_issuer = codes "AUTH_JWT_ISSUER"
var_name auth_jwt_audience = codes "AUTH_JWT_AUDIENCE"
var_name auth_jwt_ttl_seconds = codes "AUTH_JWT_TTL_SECONDS"
var_name auth_gateway_origins = codes "AUTH_GATEWAY_ORIGINS"
var_name smtp_host = codes "SMTP_HOST"
var_name smtp_port = codes "SMTP_PORT"
var_name smtp_secure = codes "SMTP_SECURE"

-- `NonSecretProfile`: a text for every variable, empty where the slot is unset.
abbrev pub Profile : Type 0
Profile = Var → Text

-- `CanonicalEnvironment` with the context of the automated tests.
pub data Environment : Type 0 where
  local sandbox production test : Environment

abbrev pub environment_name : Environment → Text
environment_name local = codes "local"
environment_name sandbox = codes "sandbox"
environment_name production = codes "production"
environment_name test = codes "test"

-- The slots that the three profiles share; all others but two are unset.
abbrev common : Text → Text → Profile
common name transport environment = name
common name transport auth_registration_enabled = codes "true"
common name transport auth_email_password_enabled = codes "true"
common name transport auth_require_email_verification = codes "true"
common name transport auth_mail_transport = transport
common name transport auth_mail_from = codes "User Service <noreply@example.com>"
common name transport auth_app_name = codes "User Service"
common name transport auth_mail_allowlist = []
common name transport auth_verify_email_action_url = []
common name transport auth_reset_password_action_url = []
common name transport auth_jwt_issuer = []
common name transport auth_jwt_audience = []
common name transport auth_jwt_ttl_seconds = []
common name transport auth_gateway_origins = []
common name transport smtp_host = []
common name transport smtp_port = []
common name transport smtp_secure = []

unfoldable pub local_profile : Profile
local_profile = common (codes "local") []

unfoldable pub sandbox_profile : Profile
sandbox_profile = common (codes "sandbox") (codes "resend")

unfoldable pub production_profile : Profile
production_profile = common (codes "production") (codes "resend")

-- `ENVIRONMENT_PROFILES`, and the local one for the tests.
unfoldable pub profile_of : Environment → Profile
unfolding local_profile sandbox_profile production_profile
profile_of local = local_profile
profile_of sandbox = sandbox_profile
profile_of production = production_profile
profile_of test = local_profile
