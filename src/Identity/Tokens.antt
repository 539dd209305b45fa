-- ===== src/Identity/Tokens.antt =====
-- consumer-tokens.ts: the claims, the lifetime and the expiry of the tokens that the service mints.
-- `lower` is `toLowerCase`.
pub mod Laws
use user_service_platform.Prelude.{
  ℕ, ◌+◌, ◌-◌, ◌*◌, Bool, true, false, not, ◌&&◌, ◌||◌, List, [], ◌∷◌, Option, none, some, Result,
  ok, err, ◌>>=◌, ◌>>◌, guard, get_or, if◌then◌else◌, leb, ltb, ◌==◌, length, all, any,
}
use user_service_platform.Prelude.Int.{ℤ, pos, negsuc}
use user_service_platform.Text.{Text, codes, text_eq, is_empty, is_space, trim, split_on}
use user_service_platform.Json.{Json, Members, get, as_integer, bind_record}
use user_service_platform.Consumer.Verifier.{Platform, decode_segment}

abbrev pub max_consumer_token_ttl_seconds : ℕ
max_consumer_token_ttl_seconds = 900

abbrev pub default_consumer_token_ttl_seconds : ℕ
default_consumer_token_ttl_seconds = 900

abbrev pub local_consumer_token_issuer : Text
local_consumer_token_issuer = codes "https://local.user-service.internal"

abbrev pub local_consumer_token_audience : Text
local_consumer_token_audience = codes "user-service-local"

abbrev pub max_claim_value_length : ℕ
max_claim_value_length = 256

-- `ConsumerTokenConfigInput`.
pub record ConfigInput : Type 0 where
  pub environment : Option Text
  pub issuer : Option Text
  pub audience : Option Text
  pub ttl_seconds : Option Text

-- `ConsumerTokenConfig`.
pub record TokenConfig : Type 0 where
  pub issuer : Text
  pub audience : Text
  pub ttl_seconds : ℕ

-- The messages that the code throws.
pub data ConfigError : Type 0 where
  malformed_claim : Text → ConfigError
  missing_claim : Text → ConfigError
  malformed_ttl : ConfigError

unfoldable pub is_production_like : (Text → Text) → Text → Bool
is_production_like lower environment =
    let normalized = lower (trim environment) in
    text_eq normalized (codes "sandbox")
    || text_eq normalized (codes "staging")
    || text_eq normalized (codes "production")

unfoldable pub has_control_char : Text → Bool
has_control_char value = any (λ c. ltb c 32 || c == 0x7f) value

abbrev pub claim_of : Text → Text → Result ConfigError (Option Text)
claim_of name [] = ok none
claim_of name (c ∷ s) =
    if not (leb (length (c ∷ s)) max_claim_value_length)
      || any is_space (c ∷ s)
      || has_control_char (c ∷ s)
    then err (malformed_claim name)
    else ok (some (c ∷ s))

unfoldable pub parse_claim_value : Text → Option Text → Result ConfigError (Option Text)
unfolding has_control_char is_space
parse_claim_value name value = claim_of name (trim (get_or value []))

abbrev pub is_digit : ℕ → Bool
is_digit c = leb 48 c && leb c 57

-- `Number.parseInt(s, 10)` on digits, before rounding.
unfoldable pub digits_from : ℕ → Text → ℕ
digits_from n [] = n
digits_from n (c ∷ s) = digits_from (10 * n + (c - 48)) s

abbrev pub ttl_of : Text → Result ConfigError ℕ
ttl_of [] = ok default_consumer_token_ttl_seconds
ttl_of (c ∷ s) =
    guard (all is_digit (c ∷ s)) malformed_ttl
    >> (let parsed = digits_from 0 (c ∷ s) in
        if ltb parsed 1 || not (leb parsed max_consumer_token_ttl_seconds)
        then err malformed_ttl
        else ok parsed)

unfoldable pub parse_ttl_seconds : Option Text → Result ConfigError ℕ
unfolding digits_from
parse_ttl_seconds value = ttl_of (trim (get_or value []))

-- `if (value === null && productionLike) throw`
abbrev pub require_explicit : Text → Bool → Option Text → Result ConfigError (Unit {0})
require_explicit name production_like (some value) = ok tt
require_explicit name production_like none = guard (not production_like) (missing_claim name)

unfoldable pub resolve_consumer_token_config :
    (Text → Text) → ConfigInput → Result ConfigError TokenConfig
unfolding is_production_like parse_claim_value parse_ttl_seconds
resolve_consumer_token_config lower input =
    let environment = lower (trim (get_or input.environment (codes "local"))) in
    let production_like = is_production_like lower environment in
    parse_claim_value (codes "AUTH_JWT_ISSUER") input.issuer >>= λ issuer.
    parse_claim_value (codes "AUTH_JWT_AUDIENCE") input.audience >>= λ audience.
    require_explicit (codes "AUTH_JWT_ISSUER") production_like issuer
    >> (require_explicit (codes "AUTH_JWT_AUDIENCE") production_like audience
        >> (parse_ttl_seconds input.ttl_seconds >>= λ ttl. ok (record {
          issuer = get_or issuer local_consumer_token_issuer;
          audience = get_or audience local_consumer_token_audience;
          ttl_seconds = ttl;
        })))

abbrev pub filled_expiry : Option ℤ → Option ℤ
filled_expiry none = none
filled_expiry (some (negsuc n)) = none
filled_expiry (some (pos n)) = if leb 1 n then some (pos n) else none

abbrev pub expiry_of_claims : Option Members → Option ℤ
expiry_of_claims none = none
expiry_of_claims (some claims) = filled_expiry (as_integer (get (codes "exp") claims))

abbrev pub expiry_of_parts : Platform → List Text → Option ℤ
expiry_of_parts platform (header ∷ (c ∷ s) ∷ signature ∷ []) =
    expiry_of_claims (bind_record (decode_segment platform (c ∷ s)))
expiry_of_parts platform _ = none

-- `extractTokenExpiry`; a payload that is no object has no `exp`, or throws, which is caught.
unfoldable pub extract_token_expiry : Platform → Text → Option ℤ
unfolding decode_segment
extract_token_expiry platform token = expiry_of_parts platform (split_on b'.' token)

-- `Math.min(a, b)`.
abbrev pub lesser : ℕ → ℕ → ℕ
lesser a b = if leb a b then a else b

unfoldable pub cap_token_expiry_seconds : ℕ → ℕ → ℕ → ℕ
cap_token_expiry_seconds now ttl session_expiry = lesser (now + ttl) session_expiry
