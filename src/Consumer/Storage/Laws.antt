-- ===== src/Consumer/Storage/Laws.antt =====
-- Round trip and removal of the stored sessions.
use user_service_platform.Prelude.{
  ◌≡◌, ◌≢◌, refl, sym, false, [], ◌∷◌, none, some, if◌then◌else◌, arith,
}
use user_service_platform.Text.{Text, codes, text_eq}
use user_service_platform.Text.Laws.{text_eq_iff, text_eq_refl}
use user_service_platform.Json.{
  Json, bool, int, str, obj, member, end, get, as_filled_text, as_integer, as_bool,
}
use user_service_platform.Consumer.Storage.{
  Storage, StoredSession, Scope, Codec, get_item, remove_item, token_storage_key, stored_session_of,
  load_stored_session, save_stored_session, clear_stored_session,
}

get_item-remove_item :
    (key other : Text) (items : Storage)
    → get_item other (remove_item key items)
      ≡ (if text_eq key other then none else get_item other items)
unfolding get_item remove_item
get_item-remove_item key other [] = ground arith
get_item-remove_item key other ((k, v) ∷ items) = ground (
  arith,
  get_item-remove_item key other items,
  text_eq_iff k key,
  text_eq_iff k other,
  text_eq_iff key other,
)

-- The JSON value of a session: an object with its three fields.
abbrev pub json_of : StoredSession → Json
json_of session = obj (
    member (codes "accessToken") (str session.access_token) (
      member (codes "expiresAt") (int session.expires_at) (
        member (codes "user")
          (obj (
            member (codes "id") (str session.user.id) (
              member (codes "email") (str session.user.email)
                (member (codes "emailVerified") (bool session.user.email_verified) end))))
          end)))

-- A session of a user: the token, the user's id and the address are not empty.
pub record IsFilled (session : StoredSession) : Type 0 where
  pub token : session.access_token ≢ []
  pub id : session.user.id ≢ []
  pub email : session.user.email ≢ []

text_eq-false : (a b : Text) → a ≢ b → text_eq a b ≡ false
text_eq-false a b h = grind (arith, text_eq_iff a b)

filled : (s : Text) → s ≢ [] → as_filled_text (some (str s)) ≡ some s
unfolding as_filled_text
filled [] h = absurd (h refl)
filled (c ∷ s) h = refl

json_of-IsFilled :
    (session : StoredSession)
    → IsFilled session
    → stored_session_of (json_of session) ≡ some session
unfolding stored_session_of get text_eq codes as_integer as_bool
json_of-IsFilled session h =
    rw
      (
        filled session.access_token h.token,
        filled session.user.id h.id,
        filled session.user.email h.email,
      )
      refl

-- If the platform's JSON gives back the fields of the session, and its token, user id and address
-- are not empty, a saved session is loaded under its scope, and no other entry of the storage
-- changes.
pub load-save :
    (codec : Codec) (scope : Scope) (session : StoredSession) (items : Storage)
    → codec.parse (codec.stringify session) ≡ some (json_of session)
    → IsFilled session
    → let saved = save_stored_session codec scope session items in
      (load_stored_session codec scope saved ≡ some session)
      × ((key : Text)
          → key ≢ token_storage_key codec scope
          → get_item key saved ≡ get_item key items)
unfolding load_stored_session save_stored_session
load-save codec scope session items json h = (
  rw (text_eq_refl (token_storage_key codec scope), json, json_of-IsFilled session h) refl,
  λ key other.
      rw
        (
          text_eq-false (token_storage_key codec scope) key (λ e. other (sym e)),
          get_item-remove_item (token_storage_key codec scope) key items,
          text_eq-false (token_storage_key codec scope) key (λ e. other (sym e)),
        )
        refl,
)

-- A cleared session is absent, whatever was stored.
pub load-clear :
    (codec : Codec) (scope : Scope) (items : Storage)
    → load_stored_session codec scope (clear_stored_session codec scope items) ≡ none
unfolding load_stored_session clear_stored_session
load-clear codec scope items =
    rw
      (
        get_item-remove_item (token_storage_key codec scope) (token_storage_key codec scope) items,
        text_eq_refl (token_storage_key codec scope),
      )
      refl
