-- ===== src/Identity/Resend/Laws.antt =====
-- Whom the Resend transport writes to.
use user_service_platform.Prelude.{
  ◌≡◌, refl, ap, ◌∙◌, sym, subst, ◌⊎◌, inl, inr, Bool, true, false, not, ◌&&◌, Option, none, some,
  Result, ok, >>=-eq-ok, guard, get_or, if◌then◌else◌, arith,
}
use user_service_platform.Text.{Text, codes, text_eq, is_empty}
use user_service_platform.Text.Laws.{text_eq_iff}
use user_service_platform.Identity.Resend.{
  ResendEnv, ResendConfig, ResendError, api_key_required, from_required, allowlist_required, Mail,
  Post, LogRecord, Response, trimmed, is_none_listed, parse_allowlist, is_allowlisted,
  resolve_resend_config, deliver,
}

-- The environment is production, or the recipient is on the list that the environment sets.
abbrev pub MayReceive : (Text → Text) → ResendEnv → Text → Type 0
MayReceive lower env to =
    (get_or env.environment (codes "local") ≡ codes "production")
    ⊎ (is_allowlisted lower to (parse_allowlist lower env.auth_mail_allowlist) ≡ true)

-- The guard of a resolved configuration and its list are those of the environment.
abbrev IsOf : (Text → Text) → ResendEnv → ResendConfig → Type 0
IsOf lower env config =
    (config.sandbox_guard
      ≡ not (text_eq (get_or env.environment (codes "local")) (codes "production")))
    × (config.allowlist ≡ parse_allowlist lower env.auth_mail_allowlist)

ok-injective :
    (a b : ResendConfig) → ◌≡◌ {A = Result ResendError ResendConfig} (ok a) (ok b) → a ≡ b
ok-injective a b h = cc

resolve_resend_config-IsOf :
    (lower : Text → Text) (env : ResendEnv) (config : ResendConfig)
    → resolve_resend_config lower env ≡ ok config
    → IsOf lower env config
unfolding resolve_resend_config
resolve_resend_config-IsOf lower env config h =
    let environment = get_or env.environment (codes "local") in
    let a =
      >>=-eq-ok (guard (not (is_empty (trimmed env.resend_api_key))) (api_key_required environment))
        _ h in
    let b =
      >>=-eq-ok (guard (not (is_empty (trimmed env.auth_mail_from))) (from_required environment)) _
        a.2 in
    let c =
      >>=-eq-ok
        (guard
          (not (
            not (text_eq environment (codes "production"))
            && is_none_listed (parse_allowlist lower env.auth_mail_allowlist)))
          (allowlist_required environment))
        _ b.2 in
    subst (IsOf lower env) (ok-injective _ config c.2) (refl, refl)

abbrev outcome : Bool → LogRecord → Post → LogRecord → Option Post × LogRecord
outcome skips skipped post logged = if skips then (none, skipped) else (some post, logged)

posted :
    (guarded listed : Bool) (post given : Post) (skipped logged : LogRecord)
    → (outcome (guarded && not listed) skipped post logged).0 ≡ some given
    → (guarded ≡ false) ⊎ (listed ≡ true)
posted true true post given skipped logged h = inr refl
posted true false post given skipped logged h = cc
posted false listed post given skipped logged h = inl refl

not-false : (b : Bool) → not b ≡ false → b ≡ true
not-false b h = ground arith

-- With a configuration that resolves, a delivery that posts anything to the provider is in
-- production or has a recipient that the environment's allowlist names.
pub deliver-MayReceive :
    (lower : Text → Text) (env : ResendEnv) (config : ResendConfig) (mail : Mail)
    (response : Response) (post : Post)
    → resolve_resend_config lower env ≡ ok config
    → (deliver lower config mail response).0 ≡ some post
    → MayReceive lower env mail.to
unfolding deliver
deliver-MayReceive lower env config mail response post h p =
    let origin = resolve_resend_config-IsOf lower env config h in
    elim (posted config.sandbox_guard (is_allowlisted lower mail.to config.allowlist) _ post _ _
      p) [
        | inl unguarded ↦ inl (
            (text_eq_iff (get_or env.environment (codes "local")) (codes "production")).0
              (not-false _ (sym origin.0 ∙ unguarded)))
        | inr listed ↦ inr (ap (is_allowlisted lower mail.to) (sym origin.1) ∙ listed)
      ]
