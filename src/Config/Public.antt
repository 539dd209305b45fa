-- ===== src/Config/Public.antt =====
-- What the effective configuration of config.ts depends on.
use user_service_platform.Prelude.{List, All, ◌≡◌, ap, [], ◌∷◌, Option, ok, ◌>>=◌, ◌>>◌, get_or}
use user_service_platform.Text.{Text, codes}
use user_service_platform.Json.{as_text}
use user_service_platform.Url.{Url}
use user_service_platform.Config.Profiles.{
  Var, environment, auth_registration_enabled, auth_email_password_enabled,
  auth_require_email_verification, auth_mail_transport, auth_verify_email_action_url,
  auth_reset_password_action_url, smtp_secure, var_name, Profile, profile_of, auth_mail_from,
  auth_app_name, auth_mail_allowlist, auth_jwt_issuer, auth_jwt_audience, auth_jwt_ttl_seconds,
  auth_gateway_origins, smtp_host, smtp_port,
}
use user_service_platform.Config.{
  Runtime, normalize_environment_name, validate_profile, overlay, resolve_effective_config,
}

-- The names that the configuration may depend on: those of the documented variables that hold no
-- secret.
abbrev pub public_names : List Text
public_names =
    codes "ENVIRONMENT"
    ∷ codes "AUTH_REGISTRATION_ENABLED"
    ∷ codes "AUTH_EMAIL_PASSWORD_ENABLED"
    ∷ codes "AUTH_REQUIRE_EMAIL_VERIFICATION"
    ∷ codes "AUTH_MAIL_TRANSPORT"
    ∷ codes "AUTH_MAIL_FROM"
    ∷ codes "AUTH_APP_NAME"
    ∷ codes "AUTH_MAIL_ALLOWLIST"
    ∷ codes "AUTH_VERIFY_EMAIL_ACTION_URL"
    ∷ codes "AUTH_RESET_PASSWORD_ACTION_URL"
    ∷ codes "AUTH_JWT_ISSUER"
    ∷ codes "AUTH_JWT_AUDIENCE"
    ∷ codes "AUTH_JWT_TTL_SECONDS"
    ∷ codes "AUTH_GATEWAY_ORIGINS"
    ∷ codes "SMTP_HOST"
    ∷ codes "SMTP_PORT"
    ∷ codes "SMTP_SECURE"
    ∷ []

-- The two runtimes have the same values under these names.
abbrev pub Agree : Runtime → Runtime → Type 0
Agree a b = All (λ name. a name ≡ b name) public_names

-- Every variable is read under one of these names.
Agree-var_name : (a b : Runtime) → Agree a b → (var : Var) → a (var_name var) ≡ b (var_name var)
Agree-var_name a b h environment = h.0
Agree-var_name a b h auth_registration_enabled = h.1.0
Agree-var_name a b h auth_email_password_enabled = h.1.1.0
Agree-var_name a b h auth_require_email_verification = h.1.1.1.0
Agree-var_name a b h auth_mail_transport = h.1.1.1.1.0
Agree-var_name a b h auth_mail_from = h.1.1.1.1.1.0
Agree-var_name a b h auth_app_name = h.1.1.1.1.1.1.0
Agree-var_name a b h auth_mail_allowlist = h.1.1.1.1.1.1.1.0
Agree-var_name a b h auth_verify_email_action_url = h.1.1.1.1.1.1.1.1.0
Agree-var_name a b h auth_reset_password_action_url = h.1.1.1.1.1.1.1.1.1.0
Agree-var_name a b h auth_jwt_issuer = h.1.1.1.1.1.1.1.1.1.1.0
Agree-var_name a b h auth_jwt_audience = h.1.1.1.1.1.1.1.1.1.1.1.0
Agree-var_name a b h auth_jwt_ttl_seconds = h.1.1.1.1.1.1.1.1.1.1.1.1.0
Agree-var_name a b h auth_gateway_origins = h.1.1.1.1.1.1.1.1.1.1.1.1.1.0
Agree-var_name a b h smtp_host = h.1.1.1.1.1.1.1.1.1.1.1.1.1.1.0
Agree-var_name a b h smtp_port = h.1.1.1.1.1.1.1.1.1.1.1.1.1.1.1.0
Agree-var_name a b h smtp_secure = h.1.1.1.1.1.1.1.1.1.1.1.1.1.1.1.1.0

overlay-Agree : (base : Profile) (a b : Runtime) → Agree a b → overlay base a ≡ overlay base b
unfolding overlay
overlay-Agree base a b h =
    λ i name. ap (λ value. get_or (as_text value) (base name)) (Agree-var_name a b h name) i

-- Two runtimes that agree on the seventeen listed names, none of which names a secret, resolve to
-- the same configuration or the same error: no secret and no other variable has a part in it.
pub resolve_effective_config-Agree :
    (lower : Text → Text) (parse_url : Text → Option Url) (name : Option Text) (a b : Runtime)
    → Agree a b
    → resolve_effective_config lower parse_url name a
      ≡ resolve_effective_config lower parse_url name b
unfolding resolve_effective_config
resolve_effective_config-Agree lower parse_url name a b h =
    ap
      (λ (over : Profile → Profile). normalize_environment_name lower name >>= λ environment.
        validate_profile lower parse_url (over (profile_of environment))
        >> ok (record { environment = environment; config = over (profile_of environment) }))
      (λ i base. overlay-Agree base a b h i)
