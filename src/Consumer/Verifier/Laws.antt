-- ===== src/Consumer/Verifier/Laws.antt =====
-- `verifyConsumerToken` accepts exactly the genuine tokens.
use user_service_platform.Prelude.{
  ℕ, ◌≡◌, ◌≢◌, ◌↔◌, refl, subst, Bool, true, false, List, [], some, Result, ok, err, guard, get_or,
  find, Bool-cases, inl, inr, >>=-eq-ok,
}
use user_service_platform.Text.{Text, codes, text_eq, split_on}
use user_service_platform.Json.{str, Members, get, as_filled_text, is_text, bind_record}
use user_service_platform.Consumer.Verifier.{
  Jwk, Platform, Input, Snapshot, ErrorCode, malformed_token, unsupported_algorithm, unknown_key,
  invalid_signature, Segments, Parsed, decode_bytes, decode_segment, three_segments, parse_token,
  signing_input, authenticate, verify_consumer_token, default_clock_tolerance_seconds,
}
use user_service_platform.Consumer.Verifier.Claims.{
  guard_inv, from_option_inv, is_text_inv, is_text_intro, as_filled_text_inv, as_filled_text_intro,
  ClaimsHold, check_claims_sound, check_claims_complete,
}

abbrev parse_result : Parsed → Result ErrorCode Parsed
parse_result parsed = ok parsed

parse_result_inv : (a b : Parsed) → parse_result a ≡ ok b → a ≡ b
parse_result_inv a b h = cc

last_guard : (b : Bool) (e : ErrorCode) → guard b e ≡ ok tt → b ≡ true
last_guard true e h = refl
last_guard false e h = cc

-- The token splits into three filled segments, and its header and payload decode.
pub record IsParsed (platform : Platform) (token : Text) (parsed : Parsed) : Type 0 where
  pub splits : three_segments (split_on b'.' token) ≡ some parsed.segments
  pub header_decodes :
      bind_record (decode_segment platform parsed.segments.header) ≡ some parsed.header
  pub payload_decodes :
      bind_record (decode_segment platform parsed.segments.payload) ≡ some parsed.payload

parse_token_sound :
    (platform : Platform) (token : Text) (parsed : Parsed)
    → parse_token platform token ≡ ok parsed
    → IsParsed platform token parsed
unfolding parse_token
parse_token_sound platform token parsed h =
    let (segments, splits, h1) =
      from_option_inv (three_segments (split_on b'.' token)) malformed_token _ parsed h in
    let (header, header_is, h2) =
      from_option_inv (bind_record (decode_segment platform segments.header)) malformed_token _
        parsed h1 in
    let (payload, payload_is, h3) =
      from_option_inv (bind_record (decode_segment platform segments.payload)) malformed_token _
        parsed h2 in
    are_parts segments header payload splits header_is payload_is h3
  where
    are_parts :
        (segments : Segments) (header payload : Members)
        → three_segments (split_on b'.' token) ≡ some segments
        → bind_record (decode_segment platform segments.header) ≡ some header
        → bind_record (decode_segment platform segments.payload) ≡ some payload
        → parse_result (record { segments = segments; header = header; payload = payload })
          ≡ ok parsed
        → IsParsed platform token parsed
    are_parts segments header payload e f g same =
        subst (IsParsed platform token) (parse_result_inv _ parsed same)
          (record { splits = e; header_decodes = f; payload_decodes = g })

parse_token_complete :
    (platform : Platform) (token : Text) (parsed : Parsed)
    → IsParsed platform token parsed
    → parse_token platform token ≡ ok parsed
unfolding parse_token
parse_token_complete platform token parsed v =
    rw (v.splits, v.header_decodes, v.payload_decodes) refl

-- The algorithm is the pinned one, the key is listed under the header's key id, and the signature
-- is the key's for the first two segments.
pub record IsAuthentic (platform : Platform) (keys : List Jwk) (parsed : Parsed) : Type 0 where
  pub algorithm : get (codes "alg") parsed.header ≡ some (str (codes "EdDSA"))
  pub kid : Text
  pub kid_filled : kid ≢ []
  pub kid_is : get (codes "kid") parsed.header ≡ some (str kid)
  pub key : Jwk
  pub listed : find (λ entry. text_eq entry.kid kid) keys ≡ some key
  pub importable : platform.imports key ≡ true
  pub signature : List ℕ
  pub signature_decodes : decode_bytes platform parsed.segments.signature ≡ some signature
  pub signed : platform.authentic key signature (signing_input parsed.segments) ≡ true

authenticate_sound :
    (platform : Platform) (keys : List Jwk) (parsed : Parsed)
    → authenticate platform keys parsed ≡ ok tt
    → IsAuthentic platform keys parsed
unfolding authenticate
authenticate_sound platform keys parsed h =
    let (alg, h1) =
      guard_inv (is_text (get (codes "alg") parsed.header) (codes "EdDSA")) unsupported_algorithm _
        tt h in
    let (kid, kid_is, h2) =
      from_option_inv (as_filled_text (get (codes "kid") parsed.header)) unknown_key _ tt h1 in
    let (key, listed, h3) =
      from_option_inv (find (λ entry. text_eq entry.kid kid) keys) unknown_key _ tt h2 in
    let (importable, h4) = guard_inv (platform.imports key) unknown_key _ tt h3 in
    let (signature, decodes, h5) =
      from_option_inv (decode_bytes platform parsed.segments.signature) malformed_token _ tt h4 in
    let (kid_claim, filled) = as_filled_text_inv (get (codes "kid") parsed.header) kid kid_is in
    record {
      algorithm = is_text_inv (get (codes "alg") parsed.header) (codes "EdDSA") alg;
      kid = kid;
      kid_filled = filled;
      kid_is = kid_claim;
      key = key;
      listed = listed;
      importable = importable;
      signature = signature;
      signature_decodes = decodes;
      signed = last_guard _ invalid_signature h5;
    }

authenticate_complete :
    (platform : Platform) (keys : List Jwk) (parsed : Parsed)
    → IsAuthentic platform keys parsed
    → authenticate platform keys parsed ≡ ok tt
unfolding authenticate
authenticate_complete platform keys parsed v =
    let alg = is_text_intro (get (codes "alg") parsed.header) (codes "EdDSA") v.algorithm in
    let kid = as_filled_text_intro (get (codes "kid") parsed.header) v.kid v.kid_is v.kid_filled in
    rw (alg, kid, v.listed, v.importable, v.signature_decodes, v.signed) refl

-- The token that yields a snapshot: authentic under one of the keys, with claims that hold at the
-- time that the input, or else the clock, gives.
pub record IsGenuine (platform : Platform) (clock : ℕ) (token : Text) (keys : List Jwk)
    (input : Input) (snapshot : Snapshot) : Type 0 where
  pub parsed : Parsed
  pub parses : IsParsed platform token parsed
  pub authentic : IsAuthentic platform keys parsed
  pub claims :
      ClaimsHold input.issuer input.audience
        (get_or input.now_seconds clock)
        (get_or input.clock_tolerance_seconds default_clock_tolerance_seconds)
        parsed.payload
        snapshot

module _ (platform : Platform) (clock : ℕ) (token : Text) (keys : List Jwk) (input : Input)
    (snapshot : Snapshot) where
  verify_sound :
      verify_consumer_token platform clock token keys input ≡ ok snapshot
      → IsGenuine platform clock token keys input snapshot
  unfolding verify_consumer_token
  verify_sound h =
      let (parsed, parses, h1) = >>=-eq-ok (parse_token platform token) _ h in
      let (_, authentic, h2) = >>=-eq-ok (authenticate platform keys parsed) _ h1 in
      record {
        parsed = parsed;
        parses = parse_token_sound platform token parsed parses;
        authentic = authenticate_sound platform keys parsed authentic;
        claims =
            check_claims_sound input.issuer input.audience (get_or input.now_seconds clock)
              (get_or input.clock_tolerance_seconds default_clock_tolerance_seconds) parsed.payload
              snapshot h2;
      }

  verify_complete :
      IsGenuine platform clock token keys input snapshot
      → verify_consumer_token platform clock token keys input ≡ ok snapshot
  unfolding verify_consumer_token
  verify_complete v =
      rw
        (
          parse_token_complete platform token v.parsed v.parses,
          authenticate_complete platform keys v.parsed v.authentic,
        )
        (check_claims_complete input.issuer input.audience (get_or input.now_seconds clock)
          (get_or input.clock_tolerance_seconds default_clock_tolerance_seconds) v.parsed.payload
          snapshot v.claims)

-- A token is accepted, with a given snapshot, exactly if it is genuine: it parses, is authentic
-- under one of the keys, and its claims hold for the input at the time.
pub verify_consumer_token_iff :
    (platform : Platform) (clock : ℕ) (token : Text) (keys : List Jwk) (input : Input)
    (snapshot : Snapshot)
    → (verify_consumer_token platform clock token keys input ≡ ok snapshot)
      ↔ IsGenuine platform clock token keys input snapshot
verify_consumer_token_iff platform clock token keys input snapshot = (
  verify_sound platform clock token keys input snapshot,
  verify_complete platform clock token keys input snapshot,
)

authenticate-algorithm :
    (platform : Platform) (keys : List Jwk) (parsed : Parsed)
    → get (codes "alg") parsed.header ≢ some (str (codes "EdDSA"))
    → authenticate platform keys parsed ≡ err unsupported_algorithm
unfolding authenticate
authenticate-algorithm platform keys parsed other =
    let alg = get (codes "alg") parsed.header in
    elim (Bool-cases (is_text alg (codes "EdDSA"))) [
      | inl pinned ↦ absurd (other (is_text_inv alg (codes "EdDSA") pinned))
      | inr unpinned ↦ rw unpinned refl
    ]

-- The pinned algorithm comes first: a token whose header names another one is refused as such,
-- whatever keys are known.
pub verify-algorithm :
    (platform : Platform) (clock : ℕ) (token : Text) (keys : List Jwk) (input : Input)
    (parsed : Parsed)
    → parse_token platform token ≡ ok parsed
    → get (codes "alg") parsed.header ≢ some (str (codes "EdDSA"))
    → verify_consumer_token platform clock token keys input ≡ err unsupported_algorithm
unfolding verify_consumer_token
verify-algorithm platform clock token keys input parsed e other =
    rw (e, authenticate-algorithm platform keys parsed other) refl
