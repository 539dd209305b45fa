-- ===== src/Identity/Tokens/Laws.antt =====
-- Bounds of the settings and of the expiry of consumer tokens.
use user_service_platform.Prelude.{
  ℕ, ◌≤◌, ◌≡◌, refl, subst, ◌⊎◌, inl, inr, Bool, true, false, not, ◌||◌, [], ◌∷◌, Option, none,
  some, Result, ok, err, >>=-eq-ok, get_or, if◌then◌else◌, leb, length, any, arith,
}
use user_service_platform.Text.{Text, codes, is_space, trim}
use user_service_platform.Identity.Tokens.{
  ConfigInput, TokenConfig, ConfigError, malformed_claim, is_production_like, has_control_char,
  claim_of, parse_claim_value, ttl_of, parse_ttl_seconds, require_explicit,
  resolve_consumer_token_config, local_consumer_token_issuer, local_consumer_token_audience,
}

-- A claim that can be minted: filled and bounded, with no white space and no control character.
pub record IsClaim (value : Text) : Type 0 where
  pub filled : 1 ≤ length value
  pub bounded : length value ≤ 256
  pub unspaced : any is_space value ≡ false
  pub printable : has_control_char value ≡ false

accepted :
    (b : Bool) (name value claim : Text)
    → (if b then err (malformed_claim name) else ok (some value)) ≡ ok (some claim)
    → (b ≡ false) × (value ≡ claim)
accepted true name value claim h = cc
accepted false name value claim h = (refl, cc)

accepted-IsClaim :
    (c : ℕ) (s : Text)
    → (not (leb (length (c ∷ s)) 256) || any is_space (c ∷ s) || has_control_char (c ∷ s)) ≡ false
    → IsClaim (c ∷ s)
accepted-IsClaim c s h = record {
  filled = omega arith;
  bounded = ground arith;
  unspaced = ground arith;
  printable = ground arith;
}

claim_of-IsClaim :
    (name value : Text) (claim : Text) → claim_of name value ≡ ok (some claim) → IsClaim claim
claim_of-IsClaim name [] claim h = ground arith
claim_of-IsClaim name (c ∷ s) claim h =
    let good =
      accepted (not (leb (length (c ∷ s)) 256) || any is_space (c ∷ s) || has_control_char (c ∷ s))
        name (c ∷ s) claim h in
    subst IsClaim good.1 (accepted-IsClaim c s good.0)

ttl_of-bounds : (value : Text) (ttl : ℕ) → ttl_of value ≡ ok ttl → (1 ≤ ttl) × (ttl ≤ 900)
ttl_of-bounds [] ttl h = ground arith
ttl_of-bounds (c ∷ s) ttl h = ground arith

parse_ttl-ttl_of :
    (value : Option Text) (ttl : ℕ)
    → parse_ttl_seconds value ≡ ok ttl
    → ttl_of (trim (get_or value [])) ≡ ok ttl
unfolding parse_ttl_seconds
parse_ttl-ttl_of value ttl h = h

ok-injective : (a b : TokenConfig) → ◌≡◌ {A = Result ConfigError TokenConfig} (ok a) (ok b) → a ≡ b
ok-injective a b h = cc

require_explicit_sound :
    (name : Text) (production_like : Bool) (slot value : Option Text) (fallback : Text)
    (u : Unit {0})
    → parse_claim_value name slot ≡ ok value
    → require_explicit name production_like value ≡ ok u
    → (production_like ≡ false) ⊎ (parse_claim_value name slot ≡ ok (some (get_or value fallback)))
require_explicit_sound name true slot none fallback u p h = ground arith
require_explicit_sound name false slot none fallback u p h = inl refl
require_explicit_sound name b slot (some value) fallback u p h = inr p

get_or-IsClaim :
    (name fallback : Text) (value : Option Text) (claim : Option Text)
    → IsClaim fallback
    → parse_claim_value name value ≡ ok claim
    → IsClaim (get_or claim fallback)
unfolding parse_claim_value
get_or-IsClaim name fallback value none f h = f
get_or-IsClaim name fallback value (some claim) f h =
    claim_of-IsClaim name (trim (get_or value [])) claim h

local_issuer-IsClaim : IsClaim local_consumer_token_issuer
unfolding codes is_space has_control_char
local_issuer-IsClaim = record {
  filled = omega arith;
  bounded = omega arith;
  unspaced = refl;
  printable = refl;
}

local_audience-IsClaim : IsClaim local_consumer_token_audience
unfolding codes is_space has_control_char
local_audience-IsClaim = record {
  filled = omega arith;
  bounded = omega arith;
  unspaced = refl;
  printable = refl;
}

abbrev production_like_of : (Text → Text) → ConfigInput → Bool
production_like_of lower input =
    is_production_like lower (lower (trim (get_or input.environment (codes "local"))))

-- What a resolved configuration promises: a lifetime within 1..900 and claims that can be minted,
-- which in a production-like environment are the values that were configured.
pub record IsResolved (lower : Text → Text) (input : ConfigInput) (config : TokenConfig)
    : Type 0 where
  pub positive : 1 ≤ config.ttl_seconds
  pub bounded : config.ttl_seconds ≤ 900
  pub issuer_claim : IsClaim config.issuer
  pub audience_claim : IsClaim config.audience
  pub issuer_explicit :
      (production_like_of lower input ≡ false)
      ⊎ (parse_claim_value (codes "AUTH_JWT_ISSUER") input.issuer ≡ ok (some config.issuer))
  pub audience_explicit :
      (production_like_of lower input ≡ false)
      ⊎ (parse_claim_value (codes "AUTH_JWT_AUDIENCE") input.audience ≡ ok (some config.audience))

-- A configuration that resolves has a lifetime within 1..900 and claims that can be minted, and in
-- a production-like environment these claims are the configured ones.
pub resolve_consumer_token_config-IsResolved :
    (lower : Text → Text) (input : ConfigInput) (config : TokenConfig)
    → resolve_consumer_token_config lower input ≡ ok config
    → IsResolved lower input config
unfolding resolve_consumer_token_config
resolve_consumer_token_config-IsResolved lower input config h =
    let a = >>=-eq-ok (parse_claim_value (codes "AUTH_JWT_ISSUER") input.issuer) _ h in
    let b = >>=-eq-ok (parse_claim_value (codes "AUTH_JWT_AUDIENCE") input.audience) _ a.2 in
    let c =
      >>=-eq-ok (require_explicit (codes "AUTH_JWT_ISSUER") (production_like_of lower input) a.0) _
        b.2 in
    let d =
      >>=-eq-ok (require_explicit (codes "AUTH_JWT_AUDIENCE") (production_like_of lower input) b.0)
        _ c.2 in
    let e = >>=-eq-ok (parse_ttl_seconds input.ttl_seconds) _ d.2 in
    let ttl =
      ttl_of-bounds (trim (get_or input.ttl_seconds [])) e.0
        (parse_ttl-ttl_of input.ttl_seconds e.0 e.1) in
    subst (IsResolved lower input) (ok-injective _ config e.2) (record {
      positive = ttl.0;
      bounded = ttl.1;
      issuer_claim =
          get_or-IsClaim (codes "AUTH_JWT_ISSUER") _ input.issuer a.0 local_issuer-IsClaim a.1;
      audience_claim =
          get_or-IsClaim (codes "AUTH_JWT_AUDIENCE") _ input.audience b.0 local_audience-IsClaim
            b.1;
      issuer_explicit =
          require_explicit_sound (codes "AUTH_JWT_ISSUER") _ input.issuer a.0
            local_consumer_token_issuer c.0 a.1 c.1;
      audience_explicit =
          require_explicit_sound (codes "AUTH_JWT_AUDIENCE") _ input.audience b.0
            local_consumer_token_audience d.0 b.1 d.1;
    })
