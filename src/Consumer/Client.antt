-- ===== src/Consumer/Client.antt =====
-- client.ts of the consumer client. An asynchronous method is a tree of steps: what it does to the
-- shared state up to an `await`, what it waits for, and how it goes on with any answer, in any
-- state that the other tasks of the page have left by then.
pub mod Session
pub mod Superseded
pub mod Verified
pub mod Logout
pub mod Page
pub mod Budget
use user_service_platform.Prelude.{
  ℕ, suc, ◌+◌, Bool, true, false, not, ◌&&◌, ◌||◌, List, [], ◌∷◌, Option, none, some, Result, ok,
  err, get_or, ◌==◌, leb, if◌then◌else◌,
}
use user_service_platform.Prelude.Int.{ℤ, pos, le_shifted}
use user_service_platform.Text.{Text, codes, text_eq}
use user_service_platform.Consumer.Verifier.{
  Jwk, Platform, Input, Snapshot, verify_consumer_token, read_token_kid,
}
use user_service_platform.Consumer.Storage.{
  User, StoredSession, Scope, Codec, Storage, load_stored_session, save_stored_session,
  clear_stored_session,
}

-- What a client is made with, and the platform that it runs on.
pub record Setup : Type 0 where
  pub scope : Scope
  pub codec : Codec
  pub platform : Platform

-- The state that the tasks of a page share. The clock is read from it too.
pub record State : Type 0 where
  pub generation : ℕ
  pub store : Storage
  pub renewing : Bool
  pub now : ℕ

-- `ConsumerIdentitySnapshot`.
pub record Identity : Type 0 where
  pub id : Text
  pub email : Text
  pub email_verified : Bool
  pub expires_at : ℤ

-- `ConsumerClientError`, without its message.
pub record ClientError : Type 0 where
  pub code : Text
  pub status : Option ℕ

-- The answer of an API call: data, or else a status with the `code` of the error if it has one; or
-- no response at all.
pub data Reply (A : Type 0) : Type 0 where
  answered : A → Reply A
  refused : ℕ → Option Text → Reply A
  unreachable : Reply A

-- What the key cache finds: the call throws, there is no such key, or all cached keys.
pub data Lookup : Type 0 where
  keys_unavailable no_key : Lookup
  cached : List Jwk → Lookup

pub data Request : Type 0 where
  post_login : Text → Text → Request
  post_token get_me post_sign_out sleep settle check_signature join_renewal : Request
  get_key : Text → Request

abbrev pub Answer : Request → Type 0
Answer (post_login email password) = Reply User
Answer post_token = Reply Text
Answer get_me = Reply User
Answer post_sign_out = Reply (Unit {0})
Answer sleep = Unit
Answer settle = Unit
Answer check_signature = Unit
Answer join_renewal = Result ClientError (Option Identity)
Answer (get_key kid) = Lookup

pub data Step (A : Type 0) : Type 0 where
  returns : State → A → Step A
  throws : State → ClientError → Step A
  awaits : State → (r : Request) → (Answer r → State → Step A) → Step A

abbrev pub client_error : Text → Option ℕ → ClientError
client_error code status = record { code = code; status = status }

abbrev pub service_unavailable : Option ℕ → ClientError
service_unavailable status = client_error (codes "service-unavailable") status

abbrev pub network_unavailable : ClientError
network_unavailable = client_error (codes "network-unavailable") none

abbrev pub invalid_token : ClientError
invalid_token = client_error (codes "invalid-token") none

-- `toClientError`, by the `code` of the error body.
unfoldable pub to_client_error : Option Text → ℕ → ClientError
to_client_error (some (c ∷ s)) status = client_error (c ∷ s) (some status)
to_client_error (some []) status =
    if leb 500 status
    then service_unavailable (some status)
    else client_error (codes "unknown-error") (some status)
to_client_error none status =
    if leb 500 status
    then service_unavailable (some status)
    else client_error (codes "unknown-error") (some status)

-- The result of `verifyStored`.
pub data Checked : Type 0 where
  valid : Text → ℤ → Checked
  invalid : Checked

abbrev pub checked_of {ℓ} : {E : Type ℓ} → Result E Snapshot → Checked
checked_of (ok snapshot) = valid snapshot.subject snapshot.expires_at
checked_of (err _) = invalid

abbrev pub identity_of : User → ℤ → Identity
identity_of user expires_at = record {
  id = user.id;
  email = user.email;
  email_verified = user.email_verified;
  expires_at = expires_at;
}

abbrev pub session_of : Text → User → ℤ → StoredSession
session_of token user expires_at = record {
  access_token = token;
  expires_at = expires_at;
  user = user;
}

module _ (setup : Setup) where
  abbrev pub load : State → Option StoredSession
  load s = load_stored_session setup.codec setup.scope s.store

  unfoldable pub discard : State → State
  discard s = record s {
    generation = s.generation + 1;
    store = clear_stored_session setup.codec setup.scope s.store;
  }

  -- `if (attemptGeneration === generation) discard()`
  unfoldable pub discard_if_current : ℕ → State → State
  unfolding discard
  discard_if_current attempt s = if attempt == s.generation then discard s else s

  unfoldable pub save : StoredSession → State → State
  save session s = record s { store = save_stored_session setup.codec setup.scope session s.store }

  -- The signature and the claims, with no tolerance, against the cached keys.
  unfoldable pub check : Text → ℕ → List Jwk → Checked
  check token at keys = checked_of (
      verify_consumer_token setup.platform at token keys (record {
        issuer = setup.scope.issuer;
        audience = setup.scope.audience;
        now_seconds = some at;
        clock_tolerance_seconds = some 0;
      }))

  -- An awaited call of an asynchronous function goes on in a later turn, however it ended.
  unfoldable pub resume : {A : Type 0} → (Checked → State → Step A) → Checked → State → Step A
  resume k checked s = awaits s settle (λ _ s'. k checked s')

  unfoldable pub look_up :
      {A : Type 0} → Text → ℕ → (Checked → State → Step A) → Lookup → State → Step A
  unfolding check resume
  look_up token at k keys_unavailable s = throws s (service_unavailable none)
  look_up token at k no_key s = resume k invalid s
  look_up token at k (cached keys) s =
      awaits s check_signature (λ _ s'. resume k (check token at keys) s')

  unfoldable pub verify_kid :
      {A : Type 0} → Text → ℕ → (Checked → State → Step A) → Option Text → State → Step A
  unfolding resume look_up
  verify_kid token at k none s = resume k invalid s
  verify_kid token at k (some kid) s = awaits s (get_key kid) (look_up token at k)

  -- `verifyStored`, going on with what was checked.
  unfoldable pub verify_stored :
      {A : Type 0} → Text → ℕ → (Checked → State → Step A) → State → Step A
  unfolding verify_kid
  verify_stored token at k s = verify_kid token at k (read_token_kid setup.platform token) s
