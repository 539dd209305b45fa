-- ===== src/Identity/Policy/Laws.antt =====
-- The verification gate and the signing secret fail closed.
use user_service_platform.Prelude.{
  ◌≡◌, refl, subst, ◌⊎◌, inl, inr, Bool, true, false, [], ◌∷◌, Option, none, some, Result, ok, err,
  >>=-eq-ok, get_or, if◌then◌else◌, arith, ◌≢◌,
}
use user_service_platform.Text.{Text, codes, trim}
use user_service_platform.Text.Laws.{text_eq_iff}
use user_service_platform.Identity.Policy.{
  AuthPolicy, PolicyEnv, SettingsError, secret_required, flag_of, parse_flag, resolve_auth_policy,
  dev_auth_secret, needs_secret, fallback_secret, resolve_auth_secret,
}

-- A slot that says false, in the spelling that the code accepts.
abbrev pub IsOff : (Text → Text) → Option Text → Type 0
IsOff lower slot = (value : Text) × (slot ≡ some value) × (lower (trim value) ≡ codes "false")

flag_of-false : (name text : Text) → flag_of name text ≡ ok false → text ≡ codes "false"
flag_of-false name text h = ground (arith, text_eq_iff text (codes "false"))

parse_flag-IsOff :
    (lower : Text → Text) (name : Text) (slot : Option Text) (b : Bool)
    → parse_flag lower slot true name ≡ ok b
    → (b ≡ true) ⊎ IsOff lower slot
unfolding parse_flag
parse_flag-IsOff lower name slot true h = inl refl
parse_flag-IsOff lower name none false h = ground arith
parse_flag-IsOff lower name (some value) false h = inr (value, refl, flag_of-false name _ h)

ok-injective : (a b : AuthPolicy) → ◌≡◌ {A = Result SettingsError AuthPolicy} (ok a) (ok b) → a ≡ b
ok-injective a b h = cc

-- If the settings resolve, each of the three features is on or its slot says false, so that the
-- verification gate is never dropped by default or by a typing error.
pub resolve_auth_policy-IsOff :
    (lower : Text → Text) (env : PolicyEnv) (policy : AuthPolicy)
    → resolve_auth_policy lower env ≡ ok policy
    → ((policy.require_email_verification ≡ true) ⊎ IsOff lower env.auth_require_email_verification)
      × ((policy.registration_enabled ≡ true) ⊎ IsOff lower env.auth_registration_enabled)
      × ((policy.email_password_enabled ≡ true) ⊎ IsOff lower env.auth_email_password_enabled)
unfolding resolve_auth_policy
resolve_auth_policy-IsOff lower env policy h =
    let a =
      >>=-eq-ok
        (parse_flag lower env.auth_registration_enabled true (codes "AUTH_REGISTRATION_ENABLED")) _
        h in
    let b =
      >>=-eq-ok
        (parse_flag lower env.auth_email_password_enabled true
          (codes "AUTH_EMAIL_PASSWORD_ENABLED"))
        _ a.2 in
    let c =
      >>=-eq-ok
        (parse_flag lower env.auth_require_email_verification true
          (codes "AUTH_REQUIRE_EMAIL_VERIFICATION"))
        _ b.2 in
    let e = ok-injective _ policy c.2 in
    (
      subst
          (λ p.
            (p.require_email_verification ≡ true) ⊎ IsOff lower env.auth_require_email_verification)
          e (parse_flag-IsOff lower (codes "AUTH_REQUIRE_EMAIL_VERIFICATION") _ c.0 c.1),
      subst (λ p. (p.registration_enabled ≡ true) ⊎ IsOff lower env.auth_registration_enabled) e
          (parse_flag-IsOff lower (codes "AUTH_REGISTRATION_ENABLED") _ a.0 a.1),
      subst (λ p. (p.email_password_enabled ≡ true) ⊎ IsOff lower env.auth_email_password_enabled) e
          (parse_flag-IsOff lower (codes "AUTH_EMAIL_PASSWORD_ENABLED") _ b.0 b.1),
    )

fallback_secret-strict :
    (environment secret : Text)
    → fallback_secret environment ≡ ok secret
    → (needs_secret environment ≡ false) × (secret ≡ dev_auth_secret)
fallback_secret-strict environment secret h = closed (needs_secret environment) h
  where
    closed :
        (b : Bool)
        → (if b then err (secret_required environment) else ok dev_auth_secret) ≡ ok secret
        → (b ≡ false) × (secret ≡ dev_auth_secret)
    closed true h = cc
    closed false h = (refl, cc)

-- In staging, sandbox and production the secret that resolves is the configured one and not empty.
pub resolve_auth_secret-configured :
    (configured environment : Option Text) (secret : Text)
    → resolve_auth_secret configured environment ≡ ok secret
    → needs_secret (get_or environment (codes "local")) ≡ true
    → (configured ≡ some secret) × (secret ≢ [])
unfolding resolve_auth_secret
resolve_auth_secret-configured (some (c ∷ s)) environment secret h p = (cc, λ e. ground arith)
resolve_auth_secret-configured (some []) environment secret h p =
    absurd (strict (fallback_secret-strict (get_or environment (codes "local")) secret h).0)
  where
    strict : needs_secret (get_or environment (codes "local")) ≡ false → ⊥
    strict e = ground arith
resolve_auth_secret-configured none environment secret h p =
    absurd (strict (fallback_secret-strict (get_or environment (codes "local")) secret h).0)
  where
    strict : needs_secret (get_or environment (codes "local")) ≡ false → ⊥
    strict e = ground arith
