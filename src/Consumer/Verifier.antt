-- ===== src/Consumer/Verifier.antt =====
-- verifier.ts of the consumer client: `readTokenKid` and `verifyConsumerToken`, in three stages of
-- its checks. Base64 decoding, `JSON.parse` and WebCrypto are the platform's.
pub mod Claims
pub mod Laws
use user_service_platform.Prelude.{
  ℕ, Bool, true, false, not, ◌&&◌, List, [], ◌∷◌, ◌++◌, map, Option, none, some, Result, ok, err,
  ◌>>=◌, ◌>>◌, guard, get_or, if◌then◌else◌, ◌==◌, find, any,
}
use user_service_platform.Prelude.Int.{ℤ, pos, le_shifted}
use user_service_platform.Text.{Text, codes, text_eq, is_empty, split_on}
use user_service_platform.Json.{
  Json, Members, get, as_record, as_filled_text, as_integer, is_text, is_empty_array, bind_record,
}

-- `ConsumerJsonWebKey`.
pub record Jwk : Type 0 where
  pub kid : Text
  pub kty : Text
  pub alg : Text
  pub use_for : Option Text
  pub crv : Option Text
  pub x : Option Text
  pub y : Option Text
  pub n : Option Text
  pub e : Option Text

-- `atob`, `JSON.parse` after `TextDecoder`, and `crypto.subtle` for Ed25519.
pub record Platform : Type 0 where
  pub atob : Text → Option (List ℕ)
  pub parse_json : List ℕ → Option Json
  pub imports : Jwk → Bool
  pub authentic : Jwk → List ℕ → Text → Bool

-- `VerifyConsumerTokenInput`; the default for the time is the clock.
pub record Input : Type 0 where
  pub issuer : Text
  pub audience : Text
  pub now_seconds : Option ℕ
  pub clock_tolerance_seconds : Option ℕ

-- `VerifiedConsumerSnapshot`; its entitlements are always empty.
pub record Snapshot : Type 0 where
  pub subject : Text
  pub issuer : Text
  pub audience : Text
  pub issued_at : ℤ
  pub expires_at : ℤ

pub data ErrorCode : Type 0 where
  malformed_token unsupported_algorithm unknown_key invalid_signature invalid_issuer : ErrorCode
  invalid_audience token_expired invalid_issued_at invalid_subject forbidden_claim : ErrorCode
  invalid_entitlements : ErrorCode

abbrev pub default_clock_tolerance_seconds : ℕ
default_clock_tolerance_seconds = 60

abbrev pub forbidden_claims : List Text
forbidden_claims =
    codes "email"
    ∷ codes "role"
    ∷ codes "sessionId"
    ∷ codes "sessionToken"
    ∷ codes "password"
    ∷ codes "providerId"
    ∷ []

abbrev pub from_option {ℓ} : {A : Type ℓ} → Option A → ErrorCode → Result ErrorCode A
from_option none code = err code
from_option (some a) code = ok a

-- `segment.replace(/-/g, '+').replace(/_/g, '/')`
unfoldable pub to_standard_base64 : Text → Text
to_standard_base64 s =
    map (λ c. if c == b'_' then b'/' else c) (map (λ c. if c == b'-' then b'+' else c) s)

unfoldable pub decode_bytes : Platform → Text → Option (List ℕ)
unfolding to_standard_base64
decode_bytes platform segment = platform.atob (to_standard_base64 segment)

abbrev pub parse_bytes : Platform → Option (List ℕ) → Option Json
parse_bytes platform none = none
parse_bytes platform (some bytes) = platform.parse_json bytes

-- `decodeSegment`; `none` where it throws.
unfoldable pub decode_segment : Platform → Text → Option Json
unfolding decode_bytes
decode_segment platform segment = parse_bytes platform (decode_bytes platform segment)

abbrev pub kid_of_record : Option Members → Option Text
kid_of_record none = none
kid_of_record (some header) = as_filled_text (get (codes "kid") header)

abbrev pub kid_of_parts : Platform → List Text → Option Text
kid_of_parts platform [] = none
kid_of_parts platform ([] ∷ _) = none
kid_of_parts platform ((c ∷ s) ∷ _) = kid_of_record (bind_record (decode_segment platform (c ∷ s)))

-- `readTokenKid`.
unfoldable pub read_token_kid : Platform → Text → Option Text
unfolding decode_segment
read_token_kid platform token = kid_of_parts platform (split_on b'.' token)

-- The three segments of a token, none of them empty.
pub record Segments : Type 0 where
  pub header : Text
  pub payload : Text
  pub signature : Text

unfoldable pub three_segments : List Text → Option Segments
three_segments (h ∷ p ∷ s ∷ []) =
    if is_empty h
    then none
    else if is_empty p
    then none
    else if is_empty s
    then none
    else some (record { header = h; payload = p; signature = s })
three_segments _ = none

pub record Parsed : Type 0 where
  pub segments : Segments
  pub header : Members
  pub payload : Members

-- Splitting and decoding, up to the first `fail` after them.
unfoldable pub parse_token : Platform → Text → Result ErrorCode Parsed
unfolding three_segments decode_segment
parse_token platform token = do
  segments ← from_option (three_segments (split_on b'.' token)) malformed_token
  header ← from_option (bind_record (decode_segment platform segments.header)) malformed_token
  payload ← from_option (bind_record (decode_segment platform segments.payload)) malformed_token
  ok (record { segments = segments; header = header; payload = payload })

abbrev pub signing_input : Segments → Text
signing_input segments = segments.header ++ (b'.' ∷ segments.payload)

-- The algorithm, the key and the signature.
unfoldable pub authenticate : Platform → List Jwk → Parsed → Result ErrorCode (Unit {0})
unfolding decode_bytes
authenticate platform keys parsed = do
  guard (is_text (get (codes "alg") parsed.header) (codes "EdDSA")) unsupported_algorithm
  kid ← from_option (as_filled_text (get (codes "kid") parsed.header)) unknown_key
  key ← from_option (find (λ entry. text_eq entry.kid kid) keys) unknown_key
  guard (platform.imports key) unknown_key
  signature ← from_option (decode_bytes platform parsed.segments.signature) malformed_token
  guard (platform.authentic key signature (signing_input parsed.segments)) invalid_signature

abbrev pub is_some {ℓ} : {A : Type ℓ} → Option A → Bool
is_some none = false
is_some (some _) = true

-- The loop over `FORBIDDEN_CLAIMS`.
unfoldable pub has_forbidden_claim : Members → Bool
has_forbidden_claim payload = any (λ claim. is_some (get claim payload)) forbidden_claims

-- `exp > nowSeconds - tolerance`
abbrev pub unexpired : ℤ → ℕ → ℕ → Bool
unexpired exp now tolerance = not (le_shifted exp tolerance (pos now) 0)

-- `iat <= nowSeconds + tolerance`
abbrev pub issued_by : ℤ → ℕ → ℕ → Bool
issued_by iat now tolerance = le_shifted iat 0 (pos now) tolerance

abbrev pub snapshot_of : Text → Text → ℤ → ℤ → Text → Snapshot
snapshot_of issuer audience exp iat sub = record {
  subject = sub;
  issuer = issuer;
  audience = audience;
  issued_at = iat;
  expires_at = exp;
}

-- The claims, at a given time and tolerance.
unfoldable pub check_claims : Text → Text → ℕ → ℕ → Members → Result ErrorCode Snapshot
check_claims issuer audience now tolerance payload = do
  guard (is_text (get (codes "iss") payload) issuer) invalid_issuer
  guard (is_text (get (codes "aud") payload) audience) invalid_audience
  exp ← from_option (as_integer (get (codes "exp") payload)) token_expired
  guard (unexpired exp now tolerance) token_expired
  iat ← from_option (as_integer (get (codes "iat") payload)) invalid_issued_at
  guard (issued_by iat now tolerance) invalid_issued_at
  guard (not (le_shifted exp 0 iat 0)) token_expired
  sub ← from_option (as_filled_text (get (codes "sub") payload)) invalid_subject
  guard (not (has_forbidden_claim payload)) forbidden_claim
  guard (is_empty_array (get (codes "entitlements") payload)) invalid_entitlements
  ok (snapshot_of issuer audience exp iat sub)

unfoldable pub verify_consumer_token :
    Platform → ℕ → Text → List Jwk → Input → Result ErrorCode Snapshot
unfolding parse_token authenticate check_claims
verify_consumer_token platform clock token keys input = do
  parsed ← parse_token platform token
  authenticate platform keys parsed
  check_claims input.issuer input.audience (get_or input.now_seconds clock)
      (get_or input.clock_tolerance_seconds default_clock_tolerance_seconds) parsed.payload
