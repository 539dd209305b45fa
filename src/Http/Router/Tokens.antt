-- ===== src/Http/Router/Tokens.antt =====
-- The token routes of router.ts: issuance and renewal of consumer tokens, and the publication of
-- the verification keys.
use user_service_platform.Prelude.{
  List, [], ◌∷◌, Option, none, some, Result, ok, err, ◌>>=◌, leb, if◌then◌else◌,
}
use user_service_platform.Prelude.Int.{ℤ}
use user_service_platform.Text.{Text, codes}
use user_service_platform.Json.{
  Json, arr, str, Items, nil, cons, Members, get, as_record, as_text, as_filled_text,
}
use user_service_platform.Consumer.Verifier.{Jwk}
use user_service_platform.Identity.Tokens.{extract_token_expiry}
use user_service_platform.Identity.Session.{SessionContext}
use user_service_platform.Http.{
  token_body, keys_body, Response, EngineResponse, is_ok, get_token, get_jwks, Run, responds,
  awaits,
}
use user_service_platform.Http.Scope.{
  Request, Platform, Outcome, responded, failed, internal, guard_cookie_mutation, unless_rejected,
  scoped_token_auth, resolve_session_context,
}
use user_service_platform.Http.Router.Accounts.{json, json_of, unauthenticated_problem, call_engine}

abbrev pub private_no_store : Text
private_no_store = codes "private, no-store"

abbrev pub no_store : Text
no_store = codes "no-store"

-- `CONSUMER_JWKS_CACHE_MAX_AGE_SECONDS` in its header.
abbrev pub public_max_age : Text
public_max_age = codes "public, max-age=300"

abbrev pub cached : Text → Response → Response
cached cache_control response = record response { cache_control = some cache_control }

abbrev pub token_failure : Request → Response
token_failure c = internal c (some private_no_store)

abbrev pub token_denied : Request → Response
token_denied c = unauthenticated_problem c (some private_no_store)

abbrev pub token_with : Request → Text → Option ℤ → Response
token_with c token none = token_failure c
token_with c token (some expires_at) =
    cached private_no_store (json 200 (token_body token expires_at))

abbrev pub token_response : Platform → Request → Option Text → Response
token_response p c none = token_failure c
token_response p c (some token) = token_with c token (extract_token_expiry p.decoder token)

-- `asRecord(await outcome.json().catch(() => null))?.name`.
abbrev pub property_of : Text → EngineResponse → Option Json
property_of name outcome = elim (as_record (json_of outcome)) [
  | none ↦ none
  | some fields ↦ get name fields
]

abbrev pub issued : Platform → Request → Outcome → Response
issued p c (failed status code) = if leb 500 status then token_failure c else token_denied c
issued p c (responded outcome) =
    if is_ok outcome
    then token_response p c (as_filled_text (property_of (codes "token") outcome))
    else if leb 500 outcome.status
    then token_failure c
    else token_denied c

abbrev pub token_for : Platform → Request → Option SessionContext → Run
token_for p c none = responds (token_denied c)
token_for p c (some session) = awaits get_token (call_engine (issued p c))

-- `scopedTokenAuth`, whose errors are caught.
abbrev pub with_token_auth : {E A : Type 0} → Response → Result E A → Run → Run
with_token_auth response (err e) run = responds response
with_token_auth response (ok a) run = run

unfoldable pub consumer_token : Platform → Request → Run
consumer_token p c = unless_rejected (guard_cookie_mutation p c (some private_no_store)) (
    with_token_auth (token_failure c) (scoped_token_auth p c)
      (resolve_session_context p c (token_for p c)))

-- An optional field of a key: left out where it is undefined, and an error where it is no text.
unfoldable pub optional_field : Option Json → Result (Unit {0}) (Option Text)
optional_field none = ok none
optional_field (some (str s)) = ok (some s)
optional_field (some _) = err tt

abbrev pub required_field : Option Json → Result (Unit {0}) Text
required_field value = elim (as_text value) [ none ↦ err tt | some s ↦ ok s ]

abbrev pub project_fields : Members → Result (Unit {0}) Jwk
project_fields fields = required_field (get (codes "kid") fields) >>= λ kid.
    required_field (get (codes "kty") fields) >>= λ kty.
    required_field (get (codes "alg") fields) >>= λ alg.
    optional_field (get (codes "use") fields) >>= λ use_for.
    optional_field (get (codes "crv") fields) >>= λ crv.
    optional_field (get (codes "x") fields) >>= λ x.
    optional_field (get (codes "y") fields) >>= λ y.
    optional_field (get (codes "n") fields) >>= λ n.
    optional_field (get (codes "e") fields) >>= λ e. ok (record {
      kid = kid;
      kty = kty;
      alg = alg;
      use_for = use_for;
      crv = crv;
      x = x;
      y = y;
      n = n;
      e = e;
    })

-- One entry of the published list.
unfoldable pub project_key : Json → Result (Unit {0}) Jwk
unfolding optional_field
project_key entry = elim (as_record entry) [ none ↦ err tt | some fields ↦ project_fields fields ]

unfoldable pub project_keys : Items → Result (Unit {0}) (List Jwk)
project_keys nil = ok []
project_keys (cons entry entries) =
    project_key entry >>= λ key. project_keys entries >>= λ keys. ok (key ∷ keys)

abbrev pub keys_failure : Request → Response
keys_failure c = internal c (some no_store)

abbrev pub keys_response : Request → Result (Unit {0}) (List Jwk) → Response
keys_response c (err _) = keys_failure c
keys_response c (ok keys) = cached public_max_age (json 200 (keys_body keys))

abbrev pub keys_of : Request → Option Json → Response
keys_of c (some (arr entries)) = keys_response c (project_keys entries)
keys_of c (some _) = keys_failure c
keys_of c none = keys_failure c

abbrev pub published : Request → Outcome → Response
published c (failed status code) = keys_failure c
published c (responded outcome) =
    if is_ok outcome then keys_of c (property_of (codes "keys") outcome) else keys_failure c

unfoldable pub consumer_jwks : Platform → Request → Run
consumer_jwks p c =
    with_token_auth (keys_failure c) (scoped_token_auth p c)
      (awaits get_jwks (call_engine (published c)))
