-- ===== src/Config/Laws.antt =====
-- What an effective configuration is made of, and what its action URLs can be.
use user_service_platform.Prelude.{
  ◌≡◌, refl, subst, ◌⊎◌, inl, inr, Bool, true, false, not, ◌&&◌, [], ◌∷◌, Option, none, some, ok,
  >>=-eq-ok, ok-injective, guard, if◌then◌else◌, arith,
}
use user_service_platform.Text.{Text, codes, text_eq, is_empty, trim}
use user_service_platform.Text.Laws.{text_eq_iff}
use user_service_platform.Url.{Url, is_http}
use user_service_platform.Config.Profiles.{
  Var, environment, auth_registration_enabled, auth_email_password_enabled,
  auth_require_email_verification, auth_mail_transport, auth_verify_email_action_url,
  auth_reset_password_action_url, smtp_secure, Profile, profile_of,
}
use user_service_platform.Config.{
  ConfigError, malformed_url, insecure_url, remote_url, unknown_transport, malformed_secure,
  Runtime, EffectiveConfig, normalize_environment_name, parse_boolean_flag, is_transport,
  is_secure_flag, is_loopback_hostname, is_production_like, check_action_url, check_trimmed_url,
  validate_auth_action_url, validate_profile, overlay, resolve_effective_config,
}

-- What a slot for an action page can hold once it is checked: nothing, or an http URL without
-- credentials and fragment, which uses TLS unless it is on this machine outside production.
abbrev IsSecured : (Text → Text) → Bool → Url → Type 0
IsSecured lower production_like url =
    (url.protocol ≡ codes "https:")
    ⊎ ((production_like ≡ false) × (is_loopback_hostname lower url.hostname ≡ true))

pub record IsActionUrl (lower : Text → Text) (parse_url : Text → Option Url)
    (production_like : Bool) (value : Text) : Type 0 where
  pub url : Url
  pub parses : parse_url value ≡ some url
  pub http : is_http url ≡ true
  pub no_user : (url.username ≡ []) × (url.password ≡ [])
  pub no_fragment : url.hash ≡ []
  pub secured : IsSecured lower production_like url

abbrev pub IsActionSlot : (Text → Text) → (Text → Option Url) → Bool → Text → Type 0
IsActionSlot lower parse_url production_like value =
    (trim value ≡ []) ⊎ IsActionUrl lower parse_url production_like (trim value)

is_empty_sound : (s : Text) → is_empty s ≡ true → s ≡ []
is_empty_sound [] h = refl
is_empty_sound (c ∷ s) h = ground arith

guard_sound : (b : Bool) (e : ConfigError) (u : Unit {0}) → guard b e ≡ ok u → b ≡ true
guard_sound true e u h = refl
guard_sound false e u h = cc

module _ (lower : Text → Text) (parse_url : Text → Option Url) (name : Var) where
  transport-IsSecured :
      (production_like : Bool) (url : Url) (u : Unit {0})
      → is_http url ≡ true
      → (if production_like
          then guard (text_eq url.protocol (codes "https:")) (insecure_url name)
          else guard
              (not (
                text_eq url.protocol (codes "http:")
                && not (is_loopback_hostname lower url.hostname)))
              (remote_url name))
        ≡ ok u
      → IsSecured lower production_like url
  transport-IsSecured true url u http h =
      inl ((text_eq_iff url.protocol (codes "https:")).0 (guard_sound _ (insecure_url name) u h))
  transport-IsSecured false url u http h =
      let passed = guard_sound _ (remote_url name) u h in
      ground (arith, text_eq_iff url.protocol (codes "https:"))

  check_action_url_sound :
      (production_like : Bool) (value : Text) (parsed : Option Url) (u : Unit {0})
      → parse_url value ≡ parsed
      → check_action_url lower parse_url name production_like parsed ≡ ok u
      → IsActionUrl lower parse_url production_like value
  check_action_url_sound production_like value none u e h = cc
  check_action_url_sound production_like value (some url) u e h =
      let a = >>=-eq-ok (guard (is_http url) (malformed_url name)) _ h in
      let b =
        >>=-eq-ok
          (guard (is_empty url.username && is_empty url.password && is_empty url.hash)
            (malformed_url name))
          _ a.2 in
      let http = guard_sound (is_http url) (malformed_url name) a.0 a.1 in
      let plain = guard_sound _ (malformed_url name) b.0 b.1 in
      record {
        url = url;
        parses = e;
        http = http;
        no_user = (
          is_empty_sound url.username (ground arith),
          is_empty_sound url.password (ground arith),
        );
        no_fragment = is_empty_sound url.hash (ground arith);
        secured = transport-IsSecured production_like url u http b.2;
      }

  check_trimmed_url_sound :
      (production_like : Bool) (value : Text) (u : Unit {0})
      → check_trimmed_url lower parse_url name production_like value ≡ ok u
      → (value ≡ []) ⊎ IsActionUrl lower parse_url production_like value
  check_trimmed_url_sound production_like [] u h = inl refl
  check_trimmed_url_sound production_like (c ∷ s) u h =
      inr (check_action_url_sound production_like (c ∷ s) (parse_url (c ∷ s)) u refl h)

  validate_auth_action_url_sound :
      (value environment_value : Text) (u : Unit {0})
      → validate_auth_action_url lower parse_url name value environment_value ≡ ok u
      → IsActionSlot lower parse_url (is_production_like lower environment_value) value
  unfolding validate_auth_action_url
  validate_auth_action_url_sound value environment_value u h =
      check_trimmed_url_sound (is_production_like lower environment_value) (trim value) u h

-- Every variable of the configuration is the runtime's text of that name, or else the profile's.
abbrev pub IsComposed : (Text → Text) → Option Text → Runtime → EffectiveConfig → Type 0
IsComposed lower name runtime effective =
    (normalize_environment_name lower name ≡ ok effective.environment)
    × (effective.config ≡ overlay (profile_of effective.environment) runtime)

-- Both action pages of the configuration.
abbrev pub HasActionSlots : (Text → Text) → (Text → Option Url) → Profile → Type 0
HasActionSlots lower parse_url config =
    IsActionSlot lower parse_url (is_production_like lower (config environment))
      (config auth_verify_email_action_url)
    × IsActionSlot lower parse_url (is_production_like lower (config environment))
        (config auth_reset_password_action_url)

module _ (lower : Text → Text) (parse_url : Text → Option Url) where
  validate_profile-HasActionSlots :
      (config : Profile) (u : Unit {0})
      → validate_profile lower parse_url config ≡ ok u
      → HasActionSlots lower parse_url config
  unfolding validate_profile
  validate_profile-HasActionSlots config u h =
      let a =
        >>=-eq-ok
          (parse_boolean_flag lower auth_registration_enabled (config auth_registration_enabled)) _
          h in
      let b =
        >>=-eq-ok
          (parse_boolean_flag lower auth_email_password_enabled
            (config auth_email_password_enabled))
          _ a.2 in
      let c =
        >>=-eq-ok
          (parse_boolean_flag lower auth_require_email_verification
            (config auth_require_email_verification))
          _ b.2 in
      let d =
        >>=-eq-ok
          (guard (is_transport (lower (trim (config auth_mail_transport)))) unknown_transport) _
          c.2 in
      let e =
        >>=-eq-ok (guard (is_secure_flag (lower (trim (config smtp_secure)))) malformed_secure) _
          d.2 in
      let f =
        >>=-eq-ok
          (validate_auth_action_url lower parse_url auth_verify_email_action_url
            (config auth_verify_email_action_url) (config environment))
          _ e.2 in
      (
        validate_auth_action_url_sound lower parse_url auth_verify_email_action_url
            (config auth_verify_email_action_url) (config environment) f.0 f.1,
        validate_auth_action_url_sound lower parse_url auth_reset_password_action_url
            (config auth_reset_password_action_url) (config environment) u f.2,
      )

  resolve_sound :
      (name : Option Text) (runtime : Runtime) (effective : EffectiveConfig)
      → resolve_effective_config lower parse_url name runtime ≡ ok effective
      → IsComposed lower name runtime effective × HasActionSlots lower parse_url effective.config
  unfolding resolve_effective_config
  resolve_sound name runtime effective h =
      let a = >>=-eq-ok (normalize_environment_name lower name) _ h in
      let b =
        >>=-eq-ok (validate_profile lower parse_url (overlay (profile_of a.0) runtime)) _ a.2 in
      subst (λ e. IsComposed lower name runtime e × HasActionSlots lower parse_url e.config)
        (ok-injective _ effective b.2)
        ((a.1, refl), validate_profile-HasActionSlots (overlay (profile_of a.0) runtime) b.0 b.1)

-- A configuration that resolves is the environment that the name normalises to, with the runtime's
-- text for every variable, and the profile's where the runtime has none.
pub resolve_effective_config-IsComposed :
    (lower : Text → Text) (parse_url : Text → Option Url) (name : Option Text) (runtime : Runtime)
    (effective : EffectiveConfig)
    → resolve_effective_config lower parse_url name runtime ≡ ok effective
    → IsComposed lower name runtime effective
resolve_effective_config-IsComposed lower parse_url name runtime effective h =
    (resolve_sound lower parse_url name runtime effective h).0

-- What a configuration that resolves holds in its slots for action pages.
pub resolve_effective_config-HasActionSlots :
    (lower : Text → Text) (parse_url : Text → Option Url) (name : Option Text) (runtime : Runtime)
    (effective : EffectiveConfig)
    → resolve_effective_config lower parse_url name runtime ≡ ok effective
    → HasActionSlots lower parse_url effective.config
resolve_effective_config-HasActionSlots lower parse_url name runtime effective h =
    (resolve_sound lower parse_url name runtime effective h).1
