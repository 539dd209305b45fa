-- ===== src/Identity/SmtpTransport/Laws.antt =====
-- The settings of the SMTP transport.
use user_service_platform.Prelude.{
  ℕ, ◌≤◌, ◌≡◌, ◌≢◌, refl, subst, ◌⊎◌, inl, inr, Bool, true, false, not, ◌&&◌, List, [], ◌∷◌, Option,
  Result, ok, >>=-eq-ok, guard, get_or, leb, ◌==◌, length, all, Bool-cases, arith,
}
use user_service_platform.Text.{Text, codes, text_eq, is_empty}
use user_service_platform.Text.Laws.{text_eq_iff}
use user_service_platform.Smtp.Address.{matches_host}
use user_service_platform.Identity.Tokens.{is_digit, digits_from}
use user_service_platform.Identity.Resend.{trimmed, is_none_listed, parse_allowlist}
use user_service_platform.Identity.SmtpTransport.{
  SmtpEnv, SmtpConfig, SmtpError, malformed_host, malformed_port, unsupported_port, user_required,
  password_required, from_required, allowlist_required, port_of, parse_port, parse_secure,
  resolve_smtp_config,
}

-- What a resolved configuration promises.
pub record IsUsable (lower : Text → Text) (env : SmtpEnv) (config : SmtpConfig) : Type 0 where
  pub host : matches_host 251 config.host ≡ true
  pub port_positive : 1 ≤ config.port
  pub port_bounded : config.port ≤ 65535
  pub port_allowed : config.port ≢ 25
  pub credentials : (is_empty config.user ≡ false) × (is_empty config.pass ≡ false)
  pub sender : is_empty config.from ≡ false
  pub guarded :
      (get_or env.environment (codes "local") ≡ codes "production")
      ⊎ ((config.sandbox_guard ≡ true) × (config.allowlist ≢ []))

guard_sound : (b : Bool) (e : SmtpError) (u : Unit {0}) → guard b e ≡ ok u → b ≡ true
guard_sound true e u h = refl
guard_sound false e u h = cc

port_of-bounds :
    (raw : Text) (port : ℕ) → port_of raw ≡ ok port → (1 ≤ port) × (port ≤ 65535) × (port ≢ 25)
port_of-bounds raw port h =
    let value = digits_from 0 raw in
    let a =
      >>=-eq-ok
        (guard (not (is_empty raw) && leb (length raw) 5 && all is_digit raw) malformed_port) _ h in
    let b = >>=-eq-ok (guard (leb 1 value && leb value 65535) malformed_port) _ a.2 in
    let c = >>=-eq-ok (guard (not (value == 25)) unsupported_port) _ b.2 in
    bounds value (guard_sound _ malformed_port b.0 b.1) (guard_sound _ unsupported_port c.0 c.1)
      (same value c.2)
  where
    same : (value : ℕ) → ◌≡◌ {A = Result SmtpError ℕ} (ok value) (ok port) → value ≡ port
    same value h = cc

    bounds :
        (value : ℕ)
        → (leb 1 value && leb value 65535) ≡ true
        → not (value == 25) ≡ true
        → value ≡ port
        → (1 ≤ port) × (port ≤ 65535) × (port ≢ 25)
    bounds value p q e = ground arith

parse_port-port_of :
    (value : Option Text) (port : ℕ)
    → parse_port value ≡ ok port
    → port_of (trimmed value) ≡ ok port
unfolding parse_port
parse_port-port_of value port h = h

ok-injective : (a b : SmtpConfig) → ◌≡◌ {A = Result SmtpError SmtpConfig} (ok a) (ok b) → a ≡ b
ok-injective a b h = cc

guarded-cases :
    (environment : Text) (allowlist : List Text)
    → not (not (text_eq environment (codes "production")) && is_none_listed allowlist) ≡ true
    → (environment ≡ codes "production")
      ⊎ ((not (text_eq environment (codes "production")) ≡ true) × (allowlist ≢ []))
guarded-cases environment [] h =
    inl ((text_eq_iff environment (codes "production")).0 (ground arith))
guarded-cases environment (a ∷ l) h = elim (text_eq-cases environment) [
  | inl e ↦ inl ((text_eq_iff environment (codes "production")).0 e)
  | inr n ↦ inr (ground arith, λ e. cc)
]
  where
    text_eq-cases :
        (environment : Text)
        → (text_eq environment (codes "production") ≡ true)
          ⊎ (text_eq environment (codes "production") ≡ false)
    text_eq-cases environment = Bool-cases (text_eq environment (codes "production"))

not-true : (b : Bool) → not b ≡ true → b ≡ false
not-true b h = ground arith

-- An SMTP configuration that resolves has a host name, a port within 1..65535 other than 25,
-- credentials and a sender, and outside production a guard with an allowlist that is not empty.
pub resolve_smtp_config-IsUsable :
    (lower : Text → Text) (env : SmtpEnv) (config : SmtpConfig)
    → resolve_smtp_config lower env ≡ ok config
    → IsUsable lower env config
unfolding resolve_smtp_config
resolve_smtp_config-IsUsable lower env config h =
    let environment = get_or env.environment (codes "local") in
    let allowlist = parse_allowlist lower env.auth_mail_allowlist in
    let a = >>=-eq-ok (guard (matches_host 251 (trimmed env.smtp_host)) malformed_host) _ h in
    let b = >>=-eq-ok (parse_port env.smtp_port) _ a.2 in
    let c = >>=-eq-ok (parse_secure lower env.smtp_secure) _ b.2 in
    let d = >>=-eq-ok (guard (not (is_empty (trimmed env.smtp_user))) user_required) _ c.2 in
    let e =
      >>=-eq-ok (guard (not (is_empty (get_or env.smtp_password []))) password_required) _ d.2 in
    let f = >>=-eq-ok (guard (not (is_empty (trimmed env.auth_mail_from))) from_required) _ e.2 in
    let g =
      >>=-eq-ok
        (guard (not (not (text_eq environment (codes "production")) && is_none_listed allowlist))
          allowlist_required)
        _ f.2 in
    let port =
      port_of-bounds (trimmed env.smtp_port) b.0 (parse_port-port_of env.smtp_port b.0 b.1) in
    subst (IsUsable lower env) (ok-injective _ config g.2) (record {
      host = guard_sound _ malformed_host a.0 a.1;
      port_positive = port.0;
      port_bounded = port.1;
      port_allowed = port.2;
      credentials = (
        not-true _ (guard_sound _ user_required d.0 d.1),
        not-true _ (guard_sound _ password_required e.0 e.1),
      );
      sender = not-true _ (guard_sound _ from_required f.0 f.1);
      guarded = guarded-cases environment allowlist (guard_sound _ allowlist_required g.0 g.1);
    })
