-- ===== src/Identity/Policy.antt =====
-- policy.ts and secret.ts. `lower` is `toLowerCase`.
pub mod Laws
use user_service_platform.Prelude.{
  Bool, true, false, ◌||◌, [], ◌∷◌, Option, none, some, Result, ok, err, ◌>>=◌, get_or,
  if◌then◌else◌,
}
use user_service_platform.Text.{Text, codes, text_eq, trim}

-- `AuthPolicy`.
pub record AuthPolicy : Type 0 where
  pub registration_enabled : Bool
  pub email_password_enabled : Bool
  pub require_email_verification : Bool

abbrev pub default_auth_policy : AuthPolicy
default_auth_policy = record {
  registration_enabled = true;
  email_password_enabled = true;
  require_email_verification = true;
}

-- The slots of the environment that the policy reads.
pub record PolicyEnv : Type 0 where
  pub auth_registration_enabled : Option Text
  pub auth_email_password_enabled : Option Text
  pub auth_require_email_verification : Option Text

-- The names in the two error messages.
pub data SettingsError : Type 0 where
  invalid_boolean : Text → SettingsError
  secret_required : Text → SettingsError

abbrev pub flag_of : Text → Text → Result SettingsError Bool
flag_of name normalized =
    if text_eq normalized (codes "true")
    then ok true
    else if text_eq normalized (codes "false")
    then ok false
    else err (invalid_boolean name)

module _ (lower : Text → Text) where
  unfoldable pub parse_flag : Option Text → Bool → Text → Result SettingsError Bool
  parse_flag none fallback name = ok fallback
  parse_flag (some value) fallback name = flag_of name (lower (trim value))

  unfoldable pub resolve_auth_policy : PolicyEnv → Result SettingsError AuthPolicy
  unfolding parse_flag
  resolve_auth_policy env =
      parse_flag env.auth_registration_enabled default_auth_policy.registration_enabled
        (codes "AUTH_REGISTRATION_ENABLED")
      >>= λ registration.
          parse_flag env.auth_email_password_enabled default_auth_policy.email_password_enabled
            (codes "AUTH_EMAIL_PASSWORD_ENABLED")
          >>= λ email_password.
              parse_flag env.auth_require_email_verification
                default_auth_policy.require_email_verification
                (codes "AUTH_REQUIRE_EMAIL_VERIFICATION")
              >>= λ verification. ok (record {
                registration_enabled = registration;
                email_password_enabled = email_password;
                require_email_verification = verification;
              })

abbrev pub dev_auth_secret : Text
dev_auth_secret = codes "local-dev-only-insecure-secret-do-not-use-in-production"

abbrev pub needs_secret : Text → Bool
needs_secret environment =
    text_eq environment (codes "staging")
    || text_eq environment (codes "sandbox")
    || text_eq environment (codes "production")

abbrev pub fallback_secret : Text → Result SettingsError Text
fallback_secret environment =
    if needs_secret environment then err (secret_required environment) else ok dev_auth_secret

-- `resolveAuthSecret`, of the secret and the environment.
unfoldable pub resolve_auth_secret : Option Text → Option Text → Result SettingsError Text
resolve_auth_secret (some (c ∷ s)) environment = ok (c ∷ s)
resolve_auth_secret (some []) environment = fallback_secret (get_or environment (codes "local"))
resolve_auth_secret none environment = fallback_secret (get_or environment (codes "local"))
