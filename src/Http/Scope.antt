-- ===== src/Http/Scope.antt =====
-- What a handler of router.ts sets up for a request: the scoped configuration, the origin guard,
-- the calls of the engine and the resolution of the session. `lower` is `toLowerCase`, `parse_url`
-- is `new URL`, and `decoder` holds `atob` and `JSON.parse`.
use user_service_platform.Prelude.{
  ℕ, Bool, true, false, List, [], Option, none, some, Result, ok, err, ◌>>=◌, if◌then◌else◌,
}
use user_service_platform.Text.{Text, codes}
use user_service_platform.Json.{Json, null, get, as_text, bind_record}
use user_service_platform.Url.{Url}
use user_service_platform.Config.Profiles.{
  environment, auth_registration_enabled, auth_email_password_enabled,
  auth_require_email_verification, auth_mail_transport, auth_mail_from, auth_app_name,
  auth_mail_allowlist, auth_jwt_issuer, auth_jwt_audience, auth_jwt_ttl_seconds,
  auth_gateway_origins, smtp_host, smtp_port, smtp_secure, Profile, environment_name,
}
use user_service_platform.Config.{Runtime, ConfigError, EffectiveConfig, resolve_effective_config}
use user_service_platform.Identity.Policy.{
  AuthPolicy, PolicyEnv, SettingsError, resolve_auth_policy, resolve_auth_secret,
}
use user_service_platform.Consumer.Verifier
use user_service_platform.Identity.Tokens
use user_service_platform.Identity.Tokens.{ConfigInput, TokenConfig, resolve_consumer_token_config}
use user_service_platform.Identity.Origins.{
  OriginInput, OriginsError, resolve_gateway_origins, evaluate_cookie_mutation_origin,
}
use user_service_platform.Identity.Mailer.{MailerEnv, Mailer, MailerError, resolve_auth_mailer}
use user_service_platform.Identity.Session.{SessionContext, to_session_context}
use user_service_platform.Http.{
  ProblemCode, internal_error, forbidden, create_problem, problem_body, Response, Raised,
  EngineResponse, get_session, Reply, returned, raised, config_phase, auth_phase, session_phase,
  Run, responds, throws, awaits,
}

-- A request: the environment, the parts of its URL, the two headers that the guard reads, and
-- whether the engine can be built with its options.
pub record Request : Type 0 where
  pub env : Runtime
  pub origin_of_url : Text
  pub pathname : Text
  pub origin : Option Text
  pub sec_fetch_site : Option Text
  pub engine_builds : Bool

pub record Platform : Type 1 where
  pub lower : Text → Text
  pub parse_url : Text → Option Url
  pub Provided : Type 0
  pub override : Option Provided
  pub decoder : Verifier.Platform

-- The three answers of `callEngine`.
pub data Outcome : Type 0 where
  responded : EngineResponse → Outcome
  failed : ℕ → Option Text → Outcome

-- `thrownEngineFailure(error) ?? { status: 500 }`
abbrev pub failure_of : Raised → Outcome
failure_of error = elim error.status_code [
  | none ↦ failed 500 none
  | some status ↦ failed status error.code
]

abbrev pub outcome_of : Reply EngineResponse → Outcome
outcome_of (returned r) = responded r
outcome_of (raised error) = failure_of error

-- The code of `readEngineFailure`; its status is the status of the answer.
abbrev pub code_of_body : Option Json → Option Text
code_of_body body = elim (bind_record body) [
  | none ↦ none
  | some fields ↦ as_text (get (codes "code") fields)
]

-- The mail settings that the effective configuration and the environment give together.
abbrev pub mailer_env : Profile → Runtime → MailerEnv
mailer_env config env = record {
  environment = some (config environment);
  auth_mail_transport = some (config auth_mail_transport);
  resend_api_key = as_text (env (codes "RESEND_API_KEY"));
  smtp_host = some (config smtp_host);
  smtp_port = some (config smtp_port);
  smtp_secure = some (config smtp_secure);
  smtp_user = as_text (env (codes "SMTP_USER"));
  smtp_password = as_text (env (codes "SMTP_PASSWORD"));
  auth_mail_from = some (config auth_mail_from);
  auth_app_name = some (config auth_app_name);
  auth_mail_allowlist = some (config auth_mail_allowlist);
}

abbrev pub policy_env : Profile → PolicyEnv
policy_env config = record {
  auth_registration_enabled = some (config auth_registration_enabled);
  auth_email_password_enabled = some (config auth_email_password_enabled);
  auth_require_email_verification = some (config auth_require_email_verification);
}

pub data ScopeError : Type 0 where
  config_failed : ConfigError → ScopeError
  settings_failed : SettingsError → ScopeError
  mailer_failed : MailerError → ScopeError
  tokens_failed : Tokens.ConfigError → ScopeError
  origins_failed : OriginsError → ScopeError
  engine_failed : ScopeError

abbrev pub relabel {ℓ} : {E F : Type 0} {A : Type ℓ} → (E → F) → Result E A → Result F A
relabel f (ok a) = ok a
relabel f (err e) = err (f e)

-- `Response` of a failure; the token routes pass a cache control on.
unfoldable pub problem : Request → ℕ → ProblemCode → Text → Option Text → Option Text → Response
problem c status code title detail cache_control = record {
  status = status;
  body = problem_body (create_problem status code title detail (some c.pathname));
  cache_control = cache_control;
  cookies = [];
}

abbrev pub internal : Request → Option Text → Response
internal c cache_control =
    problem c 500 internal_error (codes "Internal Server Error") none cache_control

abbrev pub unless_rejected : Option Response → Run → Run
unless_rejected (some response) run = responds response
unless_rejected none run = run

-- Code that may throw first.
abbrev pub with_scope : {A : Type 0} → Result ScopeError A → (A → Run) → Run
with_scope (ok a) k = k a
with_scope (err e) k = throws none

-- An awaited call whose error is not caught.
abbrev pub or_throws : {A : Type 0} → (A → Run) → Reply A → Run
or_throws k (returned a) = k a
or_throws k (raised error) = throws none

-- `session === null ? null : toSessionContext(session)`.
unfoldable pub session_of : Json → Option SessionContext
session_of null = none
session_of payload = to_session_context payload

abbrev pub on_session : (Option SessionContext → Run) → Reply Json → Run
on_session k (raised error) = throws (some session_phase)
on_session k (returned payload) = k (session_of payload)

abbrev pub forbidden_origin : Request → Option Text → Response
forbidden_origin c cache_control =
    problem c 403 forbidden (codes "Forbidden")
      (some (codes "The request origin is not allowed for this operation.")) cache_control

module _ (p : Platform) where
  abbrev pub Mail : Type 0
  Mail = Mailer p.Provided

  abbrev pub effective_of : Request → Result ScopeError EffectiveConfig
  effective_of c =
      relabel config_failed
        (resolve_effective_config p.lower p.parse_url (as_text (c.env (codes "ENVIRONMENT"))) c.env)

  -- `scopedBase`, as far as the handlers read it: the configuration, the policy and the secret. The
  -- mailer is resolved at once, or deferred to the first mail.
  pub record Base : Type 0 where
    pub effective : EffectiveConfig
    pub policy : AuthPolicy
    pub secret : Text

  abbrev pub resolve_mailer : Bool → Profile → Runtime → Result ScopeError (Unit {0})
  resolve_mailer false config env = ok tt
  resolve_mailer true config env =
      relabel mailer_failed
        (resolve_auth_mailer p.lower p.Provided (mailer_env config env) p.override)
      >>= λ _. ok tt

  unfoldable pub scoped_base : Bool → Request → Result ScopeError Base
  scoped_base eager c = effective_of c >>= λ effective.
      relabel settings_failed (resolve_auth_policy p.lower (policy_env effective.config))
      >>= λ policy. resolve_mailer eager effective.config c.env >>= λ _.
          relabel settings_failed (
            resolve_auth_secret (as_text (c.env (codes "BETTER_AUTH_SECRET")))
              (some (effective.config environment)))
          >>= λ secret. ok (record { effective = effective; policy = policy; secret = secret })

  -- `scopedAuth`: the engine is built with these, or its constructor throws.
  unfoldable pub scoped_auth : Bool → Request → Result ScopeError Base
  unfolding scoped_base
  scoped_auth eager c =
      scoped_base eager c >>= λ base. if c.engine_builds then ok base else err engine_failed

  abbrev pub token_input : EffectiveConfig → ConfigInput
  token_input effective = record {
    environment = some (environment_name effective.environment);
    issuer = some (effective.config auth_jwt_issuer);
    audience = some (effective.config auth_jwt_audience);
    ttl_seconds = some (effective.config auth_jwt_ttl_seconds);
  }

  unfoldable pub scoped_token_auth : Request → Result ScopeError TokenConfig
  unfolding scoped_base
  scoped_token_auth c = scoped_base true c >>= λ base.
      relabel tokens_failed (resolve_consumer_token_config p.lower (token_input base.effective))
      >>= λ tokens. if c.engine_builds then ok tokens else err engine_failed

  abbrev pub gateway_origins_of : Request → Result ScopeError (List Text)
  gateway_origins_of c = effective_of c >>= λ effective.
      relabel origins_failed
        (resolve_gateway_origins p.parse_url (some (effective.config auth_gateway_origins)))

  abbrev pub origin_input : Request → List Text → OriginInput
  origin_input c gateways = record {
    request_origin = c.origin_of_url;
    origin = c.origin;
    sec_fetch_site = c.sec_fetch_site;
    gateway_origins = gateways;
  }

  -- The response that rejects the request, if there is one.
  abbrev pub guard_with : Request → Option Text → Result ScopeError (List Text) → Option Response
  guard_with c cache_control (err e) = some (internal c cache_control)
  guard_with c cache_control (ok gateways) =
      if evaluate_cookie_mutation_origin p.lower (origin_input c gateways)
      then none
      else some (forbidden_origin c cache_control)

  unfoldable pub guard_cookie_mutation : Request → Option Text → Option Response
  guard_cookie_mutation c cache_control = guard_with c cache_control (gateway_origins_of c)

  -- The configuration that `resolveSessionContext` needs: no mail setting.
  abbrev pub session_scope : Request → Result ScopeError Text
  session_scope c = effective_of c >>= λ effective.
      relabel settings_failed (resolve_auth_policy p.lower (policy_env effective.config))
      >>= λ policy. relabel settings_failed (
          resolve_auth_secret (as_text (c.env (codes "BETTER_AUTH_SECRET")))
            (some (effective.config environment)))

  abbrev pub session_from : Request → (Option SessionContext → Run) → Result ScopeError Text → Run
  session_from c k (err e) = throws (some config_phase)
  session_from c k (ok secret) =
      if c.engine_builds then awaits get_session (on_session k) else throws (some auth_phase)

  -- `resolveSessionContext`.
  unfoldable pub resolve_session_context : Request → (Option SessionContext → Run) → Run
  resolve_session_context c k = session_from c k (session_scope c)
