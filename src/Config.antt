-- ===== src/Config.antt =====
-- config.ts: the effective non-secret configuration, which is the profile of the environment with
-- the runtime's texts of the same names in its place. `lower` is `toLowerCase`, `parse_url` is
-- `new URL`.
pub mod Profiles
pub mod Laws
pub mod Public
mod Tests
use user_service_platform.Prelude.{
  ℕ, Bool, true, false, not, ◌&&◌, ◌||◌, List, [], ◌∷◌, Option, none, some, Result, ok, err, ◌>>=◌,
  ◌>>◌, guard, get_or, if◌then◌else◌, leb, ◌==◌, length, all,
}
use user_service_platform.Text.{Text, codes, text_eq, is_empty, trim, split_on}
use user_service_platform.Json.{Json, as_text}
use user_service_platform.Url.{Url, is_http}
use user_service_platform.Config.Profiles.{
  Var, environment, auth_registration_enabled, auth_email_password_enabled,
  auth_require_email_verification, auth_mail_transport, auth_verify_email_action_url,
  auth_reset_password_action_url, smtp_secure, var_name, Profile, Environment, local, sandbox,
  production, test, profile_of,
}

-- The errors, by the variable that their messages name and the shape that they ask for.
pub data ConfigError : Type 0 where
  unknown_environment unknown_transport malformed_secure : ConfigError
  malformed_flag malformed_url insecure_url remote_url : Var → ConfigError

-- `Record<string, unknown>`; `none` is `undefined`.
abbrev pub Runtime : Type 0
Runtime = Text → Option Json

pub record EffectiveConfig : Type 0 where
  pub environment : Environment
  pub config : Profile

abbrev pub environment_of : Text → Result ConfigError Environment
environment_of name =
    if text_eq name (codes "local")
    then ok local
    else if text_eq name (codes "sandbox")
    then ok sandbox
    else if text_eq name (codes "production")
    then ok production
    else if text_eq name (codes "staging")
    then ok sandbox
    else if text_eq name (codes "test")
    then ok test
    else err unknown_environment

abbrev pub is_decimal : ℕ → Bool
is_decimal c = leb 48 c && leb c 57

-- /^\d{1,3}$/
abbrev pub is_octet : Text → Bool
is_octet s = not (is_empty s) && leb (length s) 3 && all is_decimal s

abbrev pub is_loopback_range : List Text → Bool
is_loopback_range (a ∷ b ∷ c ∷ d ∷ []) =
    text_eq a (codes "127") && is_octet b && is_octet c && is_octet d
is_loopback_range _ = false

-- `.replace(/^\[|\]$/g, '')`
abbrev pub drop_last_bracket : Text → Text
drop_last_bracket [] = []
drop_last_bracket (c ∷ []) = if c == b']' then [] else c ∷ []
drop_last_bracket (c ∷ d ∷ s) = c ∷ drop_last_bracket (d ∷ s)

abbrev pub unbracketed : Text → Text
unbracketed [] = []
unbracketed (c ∷ s) = if c == b'[' then drop_last_bracket s else drop_last_bracket (c ∷ s)

abbrev pub is_transport : Text → Bool
is_transport name =
    is_empty name
    || text_eq name (codes "inmemory")
    || text_eq name (codes "resend")
    || text_eq name (codes "smtp")

abbrev pub is_secure_flag : Text → Bool
is_secure_flag value =
    is_empty value || text_eq value (codes "true") || text_eq value (codes "false")

-- The profile with the runtime's texts; anything that is no text is passed over.
unfoldable pub overlay : Profile → Runtime → Profile
overlay base runtime name = get_or (as_text (runtime (var_name name))) (base name)

module _ (lower : Text → Text) where
  unfoldable pub normalize_environment_name : Option Text → Result ConfigError Environment
  normalize_environment_name value = environment_of (lower (trim (get_or value (codes "local"))))

  unfoldable pub parse_boolean_flag : Var → Text → Result ConfigError (Unit {0})
  parse_boolean_flag name value =
      let normalized = lower (trim value) in
      guard (text_eq normalized (codes "true") || text_eq normalized (codes "false"))
        (malformed_flag name)

  unfoldable pub is_loopback_hostname : Text → Bool
  is_loopback_hostname hostname =
      let normalized = unbracketed (lower (trim hostname)) in
      text_eq normalized (codes "localhost")
      || text_eq normalized (codes "::1")
      || is_loopback_range (split_on b'.' normalized)

  unfoldable pub is_production_like : Text → Bool
  is_production_like value =
      let normalized = lower (trim value) in
      text_eq normalized (codes "sandbox")
      || text_eq normalized (codes "staging")
      || text_eq normalized (codes "production")

  module _ (parse_url : Text → Option Url) where
    abbrev pub check_action_url : Var → Bool → Option Url → Result ConfigError (Unit {0})
    check_action_url name production_like none = err (malformed_url name)
    check_action_url name production_like (some url) =
        guard (is_http url) (malformed_url name)
        >> (guard (is_empty url.username && is_empty url.password && is_empty url.hash)
              (malformed_url name)
            >> (if production_like
                then guard (text_eq url.protocol (codes "https:")) (insecure_url name)
                else guard
                    (not (
                      text_eq url.protocol (codes "http:")
                      && not (is_loopback_hostname url.hostname)))
                    (remote_url name)))

    abbrev pub check_trimmed_url : Var → Bool → Text → Result ConfigError (Unit {0})
    check_trimmed_url name production_like [] = ok tt
    check_trimmed_url name production_like (c ∷ s) =
        check_action_url name production_like (parse_url (c ∷ s))

    unfoldable pub validate_auth_action_url : Var → Text → Text → Result ConfigError (Unit {0})
    unfolding is_production_like is_loopback_hostname
    validate_auth_action_url name value environment_value =
        check_trimmed_url name (is_production_like environment_value) (trim value)

    unfoldable pub validate_profile : Profile → Result ConfigError (Unit {0})
    unfolding parse_boolean_flag validate_auth_action_url
    validate_profile config =
        parse_boolean_flag auth_registration_enabled (config auth_registration_enabled)
        >> (parse_boolean_flag auth_email_password_enabled (config auth_email_password_enabled)
            >> (parse_boolean_flag auth_require_email_verification
                  (config auth_require_email_verification)
                >> (guard (is_transport (lower (trim (config auth_mail_transport))))
                      unknown_transport
                    >> (guard (is_secure_flag (lower (trim (config smtp_secure)))) malformed_secure
                        >> (validate_auth_action_url auth_verify_email_action_url
                              (config auth_verify_email_action_url) (config environment)
                            >> validate_auth_action_url auth_reset_password_action_url
                                (config auth_reset_password_action_url) (config environment))))))

    unfoldable pub resolve_effective_config :
        Option Text → Runtime → Result ConfigError EffectiveConfig
    unfolding normalize_environment_name overlay validate_profile
    resolve_effective_config name runtime = normalize_environment_name name >>= λ environment.
        validate_profile (overlay (profile_of environment) runtime)
        >> ok (record {
          environment = environment;
          config = overlay (profile_of environment) runtime;
        })
