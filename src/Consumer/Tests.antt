-- ===== src/Consumer/Tests.antt =====
-- Runs of the consumer Identity client, and its theorems at these inputs.
use user_service_platform.Prelude.{
  ◌≢◌, ℕ, ◌+◌, ◌≡◌, refl, ◌↔◌, true, false, List, [], ◌∷◌, Option, none, some, ok, if◌then◌else◌,
  arith,
}
use user_service_platform.Prelude.Int.{pos}
use user_service_platform.Text.{Text, codes, text_eq, split_on}
use user_service_platform.Json.{
  Json, str, int, bool, arr, nil, obj, end, member, get, as_integer, as_filled_text, is_text,
  is_empty_array,
}
use user_service_platform.Consumer.Verifier.{
  Jwk, Platform, Input, Snapshot, has_forbidden_claim, verify_consumer_token,
}
use user_service_platform.Consumer.Verifier.Laws.{IsGenuine, verify_consumer_token_iff}
use user_service_platform.Consumer.Storage.{
  StoredSession, Scope, Codec, get_item, token_storage_key, load_stored_session,
  save_stored_session,
}
use user_service_platform.Consumer.Storage.Laws.{json_of as session_json_of, IsFilled, load-save}
use user_service_platform.Consumer.Client.{State, load, discard, awaits, post_token, answered}
use user_service_platform.Consumer.Client
use user_service_platform.Consumer.Client.Session.{
  failed, login_issued, login, logout, get_snapshot, recover_session,
}
use user_service_platform.Consumer.Client.Superseded.{IsGuarded, state_of}
use user_service_platform.Consumer.Client.Superseded.Operations.{
  login-IsGuarded, get_snapshot-IsGuarded, recover_session-IsGuarded,
}
use user_service_platform.Consumer.Client.Verified.{Ends, IsProven, login-Ends}
use user_service_platform.Consumer.Client.Logout.{IsPassive, logout-clears}
use user_service_platform.Consumer.Client.Page.{
  Task, Page, here, turn, later, first, IsPending, login_begun, logging_out-IsFinal,
}
use user_service_platform.Consumer.Client.Budget.{AsksAtMost, token_requests}
use user_service_platform.Consumer.Keys.{Cache, fetched, get_key}
use user_service_platform.Consumer.Keys
use user_service_platform.Consumer.Keys.Laws.{
  AnswersFor, IsImmediate, get_key-AnswersFor, failed-IsImmediate,
}

abbrev key : Jwk
key = record {
  kid = codes "k1";
  kty = codes "OKP";
  alg = codes "EdDSA";
  use_for = none;
  crv = none;
  x = none;
  y = none;
  n = none;
  e = none;
}

abbrev header : Json
header =
    obj (member (codes "alg") (str (codes "EdDSA")) (member (codes "kid") (str (codes "k1")) end))

abbrev payload : Json
payload = obj (
    member (codes "iss") (str (codes "i")) (
      member (codes "aud") (str (codes "a")) (
        member (codes "iat") (int (pos 5)) (
          member (codes "exp") (int (pos 100)) (
            member (codes "sub") (str (codes "1"))
              (member (codes "entitlements") (arr nil) end))))))

-- A platform on which "h" stands for the header and any other segment for the payload.
abbrev json_of : List ℕ → Option Json
json_of bytes = some (if text_eq bytes (codes "h") then header else payload)

abbrev platform : Platform
platform = record {
  atob = λ s. some s;
  parse_json = json_of;
  imports = λ _. true;
  authentic = λ _ _ _. true;
}

abbrev session : StoredSession
session = record {
  access_token = codes "h.p.s";
  expires_at = pos 100;
  user = record { id = codes "1"; email = codes "a@b.co"; email_verified = true };
}

abbrev session_json : Json
session_json = obj (
    member (codes "accessToken") (str (codes "h.p.s")) (
      member (codes "expiresAt") (int (pos 100)) (
        member (codes "user")
          (obj (
            member (codes "id") (str (codes "1")) (
              member (codes "email") (str (codes "a@b.co"))
                (member (codes "emailVerified") (bool true) end))))
          end)))

abbrev codec : Codec
codec = record {
  encode_uri_component = λ s. s;
  stringify = λ _. codes "{}";
  parse = λ _. some session_json;
}

abbrev scope : Scope
scope = record { service = some (codes "https://s"); issuer = codes "i"; audience = codes "a" }

abbrev input : Input
input = record {
  issuer = codes "i";
  audience = codes "a";
  now_seconds = some 10;
  clock_tolerance_seconds = some 0;
}

abbrev snapshot : Snapshot
snapshot = record {
  subject = codes "1";
  issuer = codes "i";
  audience = codes "a";
  issued_at = pos 5;
  expires_at = pos 100;
}

session-IsFilled : IsFilled session
unfolding codes
session-IsFilled = record { token = λ e. cc; id = λ e. cc; email = λ e. cc }

json_test : codec.parse (codec.stringify session) ≡ some (session_json_of session)
unfolding codes
json_test = refl

load-save_example :
    (load_stored_session codec scope (save_stored_session codec scope session []) ≡ some session)
    × ((key : Text)
        → key ≢ token_storage_key codec scope
        → get_item key (save_stored_session codec scope session []) ≡ get_item key [])
load-save_example = load-save codec scope session [] json_test session-IsFilled

accepted_token : verify_consumer_token platform 0 (codes "h.p.s") (key ∷ []) input ≡ ok snapshot
unfolding verify_consumer_token codes text_eq get as_integer as_filled_text split_on is_text
    has_forbidden_claim is_empty_array
accepted_token = refl

verify_consumer_token_iff_example :
    (verify_consumer_token platform 0 (codes "h.p.s") (key ∷ []) input ≡ ok snapshot)
    ↔ IsGenuine platform 0 (codes "h.p.s") (key ∷ []) input snapshot
verify_consumer_token_iff_example =
    verify_consumer_token_iff platform 0 (codes "h.p.s") (key ∷ []) input snapshot

abbrev setup : Client.Setup
setup = record { scope = scope; codec = codec; platform = platform }

abbrev state : State
state = record {
  generation = 3;
  store = save_stored_session codec scope session [];
  renewing = false;
  now = 200;
}

login-IsGuarded_example : IsGuarded 4 (login setup (codes "a@b.co") (codes "p") state)
login-IsGuarded_example = login-IsGuarded setup (codes "a@b.co") (codes "p") state

get_snapshot-IsGuarded_example : IsGuarded 3 (get_snapshot setup state)
get_snapshot-IsGuarded_example = get_snapshot-IsGuarded setup state

recover_session-IsGuarded_example : IsGuarded 3 (recover_session setup state)
recover_session-IsGuarded_example = recover_session-IsGuarded setup state

login-Ends_example : Ends (IsProven setup) (login setup (codes "a@b.co") (codes "p") state)
login-Ends_example = login-Ends setup (codes "a@b.co") (codes "p") state

logout-clears_example :
    (load setup (state_of (logout setup state)) ≡ none)
    × ((state_of (logout setup state)).generation ≡ 4)
    × IsPassive (logout setup state)
logout-clears_example = logout-clears setup state

token_requests_example :
    AsksAtMost 2 (get_snapshot setup state) × AsksAtMost 1 (recover_session setup state)
token_requests_example = token_requests setup state

abbrev keys_setup : Keys.Setup Text
keys_setup = record {
  kid_of = λ kid. kid;
  cast = λ _. codes "k1";
  slot = none;
  parse = λ _. none;
  stringify = λ _. [];
  max_age_seconds = 300;
  min_refresh_interval_seconds = 60;
}

abbrev cache : Cache Text
cache = record {
  keys = some (codes "k1" ∷ []);
  fetched_at_seconds = some (pos 100);
  last_refresh_attempt_seconds = none;
  refresh_unavailable = false;
  in_flight = true;
  store = [];
  now = 500;
}

get_key-AnswersFor_example :
    AnswersFor keys_setup (codes "k1") (get_key keys_setup (codes "k1") cache)
get_key-AnswersFor_example = get_key-AnswersFor keys_setup (codes "k1") cache

failed-IsImmediate_example :
    IsImmediate keys_setup
      (get_key keys_setup (codes "k2") (record (fetched keys_setup 490 none cache) { now = 520 }))
failed-IsImmediate_example =
    failed-IsImmediate keys_setup (codes "k2") 490 520 (codes "k1" ∷ []) cache refl (omega arith)

-- A login that has begun, and a logout after it.
abbrev begun : State
begun = state_of (login setup (codes "a@b.co") (codes "p") state)

abbrev login_task : Task
login_task = record {
  Value = Client.Identity;
  attempt = 4;
  step = login setup (codes "a@b.co") (codes "p") state;
}

begun_test : begun.generation ≡ 4
unfolding login discard
begun_test = refl

login_task-IsPending : IsPending setup begun login_task
login_task-IsPending = (omega (arith, begun_test), login_begun (codes "a@b.co") (codes "p") state)

-- The service accepts the login only after the logout has begun.
abbrev late_state : State
late_state = record (state_of (logout setup begun)) { now = 300 }

abbrev late : Page
late = record {
  state = late_state;
  tasks =
      record { Value = Unit; attempt = begun.generation; step = logout setup begun }
      ∷ record {
        Value = Client.Identity;
        attempt = 4;
        step = awaits late_state post_token (failed (login_issued setup 4 session.user));
      }
      ∷ [];
}

logging_out-IsFinal_example :
    (load setup late.state ≡ none) × (late.state.generation ≡ begun.generation + 1)
unfolding login logout failed discard
logging_out-IsFinal_example =
    logging_out-IsFinal setup begun (login_task ∷ []) late (login_task-IsPending, tt)
      (turn here (later _ (first 4 _ _ 300 _ _ (answered session.user) [])))
