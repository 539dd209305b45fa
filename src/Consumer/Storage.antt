-- ===== src/Consumer/Storage.antt =====
-- storage.ts of the consumer client: the versioned slot that holds a session, and its checks on
-- the way out. `encodeURIComponent`, `JSON.stringify` and `JSON.parse` are the platform's.
pub mod Laws
use user_service_platform.Prelude.{
  Bool, true, false, List, [], ◌∷◌, ◌++◌, Option, none, some, if◌then◌else◌,
}
use user_service_platform.Prelude.Int.{ℤ}
use user_service_platform.Text.{Text, codes, text_eq}
use user_service_platform.Json.{
  Json, Members, obj, get, as_record, as_filled_text, as_integer, as_bool,
}

pub record User : Type 0 where
  pub id : Text
  pub email : Text
  pub email_verified : Bool

-- `StoredConsumerSession`.
pub record StoredSession : Type 0 where
  pub access_token : Text
  pub expires_at : ℤ
  pub user : User

-- `ConsumerStorageScope`.
pub record Scope : Type 0 where
  pub service : Option Text
  pub issuer : Text
  pub audience : Text

pub record Codec : Type 0 where
  pub encode_uri_component : Text → Text
  pub stringify : StoredSession → Text
  pub parse : Text → Option Json

abbrev pub storage_version : Text
storage_version = codes "usp.consumer.v1"

-- `scopeSuffix`.
unfoldable pub scope_suffix : Codec → Scope → Text
scope_suffix codec scope =
    let rest =
      codec.encode_uri_component scope.issuer
      ++ (codes "." ++ codec.encode_uri_component scope.audience) in
    elim scope.service [
      | none ↦ rest
      | some service ↦ codec.encode_uri_component service ++ (codes "." ++ rest)
    ]

unfoldable pub token_storage_key : Codec → Scope → Text
unfolding scope_suffix
token_storage_key codec scope = storage_version ++ (codes ".token." ++ scope_suffix codec scope)

unfoldable pub jwks_storage_key : Codec → Scope → Text
unfolding scope_suffix
jwks_storage_key codec scope = storage_version ++ (codes ".jwks." ++ scope_suffix codec scope)

infixl 5 ◌>>=◌
abbrev ◌>>=◌ {ℓ κ} : {A : Type ℓ} {B : Type κ} → Option A → (A → Option B) → Option B
none >>= f = none
some a >>= f = f a

-- `isStoredSession`, with the session that the value holds. The user has to be an object as well.
unfoldable pub stored_session_of : Json → Option StoredSession
stored_session_of value = do
  fields ← as_record value
  access_token ← as_filled_text (get (codes "accessToken") fields)
  expires_at ← as_integer (get (codes "expiresAt") fields)
  user_value ← get (codes "user") fields
  user ← as_record user_value
  id ← as_filled_text (get (codes "id") user)
  email ← as_filled_text (get (codes "email") user)
  email_verified ← as_bool (get (codes "emailVerified") user)
  some (record {
    access_token = access_token;
    expires_at = expires_at;
    user = record { id = id; email = email; email_verified = email_verified };
  })

-- The storage, as a list of keys with their values.
abbrev pub Storage : Type 0
Storage = List (Text × Text)

unfoldable pub get_item : Text → Storage → Option Text
get_item key [] = none
get_item key ((k, v) ∷ items) = if text_eq k key then some v else get_item key items

unfoldable pub remove_item : Text → Storage → Storage
remove_item key [] = []
remove_item key ((k, v) ∷ items) =
    let rest = remove_item key items in if text_eq k key then rest else (k, v) ∷ rest

unfoldable pub set_item : Text → Text → Storage → Storage
unfolding remove_item
set_item key value items = (key, value) ∷ remove_item key items

-- `loadStoredSession`: a malformed entry is absent.
unfoldable pub load_stored_session : Codec → Scope → Storage → Option StoredSession
unfolding token_storage_key get_item stored_session_of
load_stored_session codec scope items = do
  raw ← get_item (token_storage_key codec scope) items
  value ← codec.parse raw
  stored_session_of value

-- `saveStoredSession`.
unfoldable pub save_stored_session : Codec → Scope → StoredSession → Storage → Storage
unfolding token_storage_key set_item
save_stored_session codec scope session items =
    set_item (token_storage_key codec scope) (codec.stringify session) items

-- `clearStoredSession`.
unfoldable pub clear_stored_session : Codec → Scope → Storage → Storage
unfolding token_storage_key remove_item
clear_stored_session codec scope items = remove_item (token_storage_key codec scope) items
