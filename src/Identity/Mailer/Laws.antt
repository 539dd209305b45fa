-- ===== src/Identity/Mailer/Laws.antt =====
-- Which mailer a deployment gets, and the one that resolves late.
use user_service_platform.Prelude.{
  ◌≡◌, refl, Bool, true, false, Option, none, some, Result, ok, err, get_or, if◌then◌else◌,
}
use user_service_platform.Text.{Text, codes, text_eq, is_empty, trim}
use user_service_platform.Text.Laws.{text_eq_iff}
use user_service_platform.Identity.Resend.{ResendConfig, ResendError, resolve_resend_config}
use user_service_platform.Identity.SmtpTransport.{SmtpConfig, SmtpError, resolve_smtp_config}
use user_service_platform.Identity.Mailer.{
  MailerEnv, resend_env, smtp_env, Mailer, provided, in_memory, development, resend, smtp,
  MailerError, is_deployed, with_resend, with_smtp, default_mailer, selected, selected_by,
  resolve_auth_mailer, kept, deferred, current,
}

-- The slot names the transport.
abbrev pub Selects : (Text → Text) → MailerEnv → Text → Type 0
Selects lower env name =
    (value : Text) × (env.auth_mail_transport ≡ some value) × (lower (trim value) ≡ name)

-- Why a deployment that provides no mailer of its own has the mailer.
abbrev pub IsSelected :
    (lower : Text → Text) (Provided : Type 0) → MailerEnv → Mailer Provided → Type 0
IsSelected lower Provided env (provided _) = ⊥
IsSelected lower Provided env in_memory = Selects lower env (codes "inmemory")
IsSelected lower Provided env development =
    is_deployed (get_or env.environment (codes "local")) ≡ false
IsSelected lower Provided env (resend config) =
    resolve_resend_config lower (resend_env env) ≡ ok config
IsSelected lower Provided env (smtp config) =
    Selects lower env (codes "smtp") × (resolve_smtp_config lower (smtp_env env) ≡ ok config)

module _ (lower : Text → Text) (Provided : Type 0) (env : MailerEnv) where
  abbrev Answer : Type 0
  Answer = Result MailerError (Mailer Provided)

  abbrev IsFine : Answer → Type 0
  IsFine (ok mailer) = IsSelected lower Provided env mailer
  IsFine (err _) = Unit

  with_resend-IsFine :
      (r : Result ResendError ResendConfig)
      → resolve_resend_config lower (resend_env env) ≡ r
      → IsFine (with_resend lower Provided r)
  with_resend-IsFine (ok config) e = e
  with_resend-IsFine (err _) e = tt

  with_smtp-IsFine :
      (r : Result SmtpError SmtpConfig)
      → Selects lower env (codes "smtp")
      → resolve_smtp_config lower (smtp_env env) ≡ r
      → IsFine (with_smtp lower Provided r)
  with_smtp-IsFine (ok config) s e = (s, e)
  with_smtp-IsFine (err _) s e = tt

  either :
      (b : Bool) (x y : Answer)
      → (b ≡ true → IsFine x)
      → (b ≡ false → IsFine y)
      → IsFine (if b then x else y)
  either true x y h k = h refl
  either false x y h k = k refl

  default_mailer-IsFine : IsFine (default_mailer lower Provided env)
  default_mailer-IsFine =
      either (is_deployed (get_or env.environment (codes "local"))) _ _
        (λ _. with_resend-IsFine (resolve_resend_config lower (resend_env env)) refl)
        (λ local. local)

  selected-IsFine :
      (value : Text)
      → env.auth_mail_transport ≡ some value
      → IsFine (selected lower Provided env (lower (trim value)))
  selected-IsFine value e =
      let selection = lower (trim value) in
      either (text_eq selection (codes "inmemory")) _ _
        (λ h. (value, e, (text_eq_iff selection (codes "inmemory")).0 h))
        (λ _.
          either (text_eq selection (codes "resend")) _ _
            (λ _. with_resend-IsFine (resolve_resend_config lower (resend_env env)) refl)
            (λ _.
              either (text_eq selection (codes "smtp")) _ _
                (λ h.
                  with_smtp-IsFine (resolve_smtp_config lower (smtp_env env))
                    (value, e, (text_eq_iff selection (codes "smtp")).0 h) refl)
                (λ _. either (is_empty selection) _ _ (λ _. default_mailer-IsFine) (λ _. tt))))

  selected_by-IsFine :
      (slot : Option Text)
      → env.auth_mail_transport ≡ slot
      → IsFine (selected_by lower Provided env slot)
  selected_by-IsFine none e = default_mailer-IsFine
  selected_by-IsFine (some value) e = selected-IsFine value e

  resolve-IsFine : IsFine (resolve_auth_mailer lower Provided env none)
  unfolding resolve_auth_mailer
  resolve-IsFine = selected_by-IsFine env.auth_mail_transport refl

IsFine-ok :
    (lower : Text → Text) (Provided : Type 0) (env : MailerEnv)
    (answer : Result MailerError (Mailer Provided)) (mailer : Mailer Provided)
    → answer ≡ ok mailer
    → IsFine lower Provided env answer
    → IsSelected lower Provided env mailer
IsFine-ok lower Provided env answer mailer e h = rw e at h

-- A mailer that resolves with no override is the one selected: one in memory or SMTP only by its
-- name, Resend only with a configuration that resolves, and the development mailer never in
-- staging, sandbox or production.
pub resolve_auth_mailer-IsSelected :
    (lower : Text → Text) (Provided : Type 0) (env : MailerEnv) (mailer : Mailer Provided)
    → resolve_auth_mailer lower Provided env none ≡ ok mailer
    → IsSelected lower Provided env mailer
resolve_auth_mailer-IsSelected lower Provided env mailer e =
    IsFine-ok lower Provided env _ mailer e (resolve-IsFine lower Provided env)

current_again :
    (lower : Text → Text) (Provided : Type 0) (env : MailerEnv)
    (r : Result MailerError (Mailer Provided))
    → resolve_auth_mailer lower Provided env none ≡ r
    → current lower Provided env (kept lower Provided r) ≡ (r, kept lower Provided r)
unfolding current
current_again lower Provided env (ok mailer) e = refl
current_again lower Provided env (err error) e = rw e refl

-- The deferred mailer resolves once, as the eager one does, and then answers the same.
pub current-resolve_auth_mailer :
    (lower : Text → Text) (Provided : Type 0) (env : MailerEnv) (override : Option Provided)
    → let first = current lower Provided env (deferred lower Provided override) in
      (first.0 ≡ resolve_auth_mailer lower Provided env override)
      × (current lower Provided env first.1 ≡ first)
unfolding current
current-resolve_auth_mailer lower Provided env none =
    (refl, current_again lower Provided env (resolve_auth_mailer lower Provided env none) refl)
current-resolve_auth_mailer lower Provided env (some override) =
    unfold resolve_auth_mailer in (refl, refl)
