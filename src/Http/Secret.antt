-- ===== src/Http/Secret.antt =====
-- The secret that a request's scope ends up with: `scopedBase` hands `resolveAuthSecret` the text of
-- the effective ENVIRONMENT, not the environment that the configuration has read from it.
use user_service_platform.Prelude.{
  Bool, true, false, Option, none, some, Result, ok, err, >>=-eq-ok, get_or, if◌then◌else◌, ◌≡◌,
  subst, ap, ◌∙◌,
}
use user_service_platform.Text.{Text, codes}
use user_service_platform.Json.{as_text}
use user_service_platform.Config.Profiles.{profile_of, environment}
use user_service_platform.Config.{EffectiveConfig, overlay, normalize_environment_name}
use user_service_platform.Config.Laws.{resolve_effective_config-IsComposed}
use user_service_platform.Identity.Policy.{
  SettingsError, dev_auth_secret, needs_secret, resolve_auth_policy, resolve_auth_secret,
}
use user_service_platform.Http.Scope.{
  Request, Platform, ScopeError, Base, relabel, settings_failed, policy_env, effective_of,
  resolve_mailer, scoped_base,
}

relabel-ok {ℓ} :
    {E F : Type 0} {A : Type ℓ} (f : E → F) (result : Result E A) (a : A)
    → relabel f result ≡ ok a
    → result ≡ ok a
relabel-ok f (ok x) a h = cc
relabel-ok f (err e) a h = cc

unless_needed :
    (b : Bool) (thrown : SettingsError) (fallback resolved : Text)
    → b ≡ false
    → ◌≡◌ {A = Result SettingsError Text} (if b then err thrown else ok fallback) (ok resolved)
    → resolved ≡ fallback
unless_needed true thrown fallback resolved n h = cc
unless_needed false thrown fallback resolved n h = cc

-- Without a configured secret, a name that needs none has the fallback.
unconfigured :
    (secret name : Option Text) (resolved : Text)
    → secret ≡ none
    → needs_secret (get_or name (codes "local")) ≡ false
    → resolve_auth_secret secret name ≡ ok resolved
    → resolved ≡ dev_auth_secret
unfolding resolve_auth_secret
unconfigured none name resolved e n h =
    unless_needed (needs_secret (get_or name (codes "local"))) _ dev_auth_secret resolved n h
unconfigured (some s) name resolved e n h = cc

ok-injective : {A : Type 0} (a b : A) → ◌≡◌ {A = Result ScopeError A} (ok a) (ok b) → a ≡ b
ok-injective a b h = cc

module _ (p : Platform) (c : Request) where
  -- The effective text of a name that the environment sets.
  effective_name :
      (effective : EffectiveConfig) (name : Text)
      → effective_of p c ≡ ok effective
      → as_text (c.env (codes "ENVIRONMENT")) ≡ some name
      → (normalize_environment_name p.lower (some name) ≡ ok effective.environment)
        × (effective.config environment ≡ name)
  unfolding overlay
  effective_name effective name h e =
      let composed =
        resolve_effective_config-IsComposed p.lower p.parse_url
          (as_text (c.env (codes "ENVIRONMENT"))) c.env effective (relabel-ok _ _ effective h) in
      (
        subst (λ n. normalize_environment_name p.lower n ≡ ok effective.environment) e composed.0,
        ap (λ config. config environment) composed.1
            ∙ ap (λ t. get_or t (profile_of effective.environment environment)) e,
      )

-- Where the environment names its ENVIRONMENT by a text that is none of the three exact names and
-- sets no secret, a scope that resolves has the development secret, in the environment that the
-- configuration reads from that text.
pub scoped_base-fallback :
    (p : Platform) (eager : Bool) (c : Request) (base : Base p) (name : Text)
    → scoped_base p eager c ≡ ok base
    → as_text (c.env (codes "ENVIRONMENT")) ≡ some name
    → as_text (c.env (codes "BETTER_AUTH_SECRET")) ≡ none
    → needs_secret name ≡ false
    → (base.secret ≡ dev_auth_secret)
      × (normalize_environment_name p.lower (some name) ≡ ok base.effective.environment)
unfolding scoped_base
scoped_base-fallback p eager c base name h e b n =
    let a = >>=-eq-ok (effective_of p c) _ h in
    let f =
      >>=-eq-ok (relabel settings_failed (resolve_auth_policy p.lower (policy_env a.0.config))) _
        a.2 in
    let g = >>=-eq-ok (resolve_mailer p eager a.0.config c.env) _ f.2 in
    let s =
      >>=-eq-ok
        (relabel settings_failed (
          resolve_auth_secret (as_text (c.env (codes "BETTER_AUTH_SECRET")))
            (some (a.0.config environment))))
        _ g.2 in
    let (named, same) = effective_name p c a.0 name a.1 e in
    let fallback =
      unconfigured (as_text (c.env (codes "BETTER_AUTH_SECRET"))) (some (a.0.config environment))
        s.0 b (ap needs_secret same ∙ n) (relabel-ok _ _ s.0 s.1) in
    subst
      (λ scope.
        (scope.secret ≡ dev_auth_secret)
        × (normalize_environment_name p.lower (some name) ≡ ok scope.effective.environment))
      (ok-injective _ base s.2) (fallback, named)
