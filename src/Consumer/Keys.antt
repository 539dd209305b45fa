-- ===== src/Consumer/Keys.antt =====
-- jwks-cache.ts of the consumer client: the cached verification keys, their age, and the cooldown
-- between refreshes. A lookup is a tree of steps: it answers, or awaits the fetch in flight, which
-- it may start itself, and goes on in any state that the page has by then. The type of the keys,
-- the cast of a parsed entry to it and the service's answers are parameters.
pub mod Laws
use user_service_platform.Prelude.{
  ℕ, ◌+◌, Bool, true, false, not, ◌&&◌, ◌||◌, List, [], ◌∷◌, Option, none, some, get_or,
  if◌then◌else◌, find,
}
use user_service_platform.Prelude.Int.{ℤ, pos, le_shifted}
use user_service_platform.Text.{Text, codes, text_eq}
use user_service_platform.Json.{
  Json, arr, Items, nil, cons, Members, get, as_record, as_text, as_filled_text, as_integer,
  as_bool,
}
use user_service_platform.Consumer.Storage.{Storage, get_item, set_item}

infixl 5 ◌>>=◌
abbrev ◌>>=◌ {ℓ κ} : {A : Type ℓ} {B : Type κ} → Option A → (A → Option B) → Option B
none >>= f = none
some a >>= f = f a

module _ (Key : Type 0) where
  -- `PersistedJwks`.
  pub record Persisted : Type 0 where
    pub fetched_at_seconds : ℤ
    pub keys : List Key
    pub last_refresh_attempt_seconds : Option ℤ
    pub refresh_unavailable : Bool

  -- `slot` is the storage key, where the cache has a storage and a scope.
  pub record Setup : Type 0 where
    pub kid_of : Key → Text
    pub cast : Members → Key
    pub slot : Option Text
    pub parse : Text → Option Json
    pub stringify : Persisted → Text
    pub max_age_seconds : ℕ
    pub min_refresh_interval_seconds : ℕ

  -- The variables of the cache, the storage, whether a fetch is in flight, and the clock.
  pub record Cache : Type 0 where
    pub keys : Option (List Key)
    pub fetched_at_seconds : Option ℤ
    pub last_refresh_attempt_seconds : Option ℤ
    pub refresh_unavailable : Bool
    pub in_flight : Bool
    pub store : Storage
    pub now : ℕ

  -- `starts s k` begins a fetch, k is told the keys that arrive or that it failed; `joins s k`
  -- waits for the fetch in flight.
  pub data Lookup : Type 0 where
    answers : Cache → Option Key → Lookup
    fails : Cache → Lookup
    starts : Cache → (Option (List Key) → Cache → Lookup) → Lookup
    joins : Cache → (Cache → Lookup) → Lookup

module _ {Key : Type 0} (setup : Setup Key) where
  -- An entry that `isPersistedJwks` lets pass.
  unfoldable pub key_of : Json → Option Key
  key_of entry = do
    fields ← as_record entry
    kid ← as_filled_text (get (codes "kid") fields)
    kty ← as_text (get (codes "kty") fields)
    alg ← as_text (get (codes "alg") fields)
    some (setup.cast fields)

  abbrev pub keys_of_items : Items → Option (List Key)
  keys_of_items nil = some []
  keys_of_items (cons entry entries) = do
    key ← key_of entry
    keys ← keys_of_items entries
    some (key ∷ keys)

  abbrev pub keys_of : Json → Option (List Key)
  keys_of (arr entries) = keys_of_items entries
  keys_of _ = none

  -- `isPersistedJwks`, with what the value holds.
  unfoldable pub persisted_of : Json → Option (Persisted Key)
  unfolding key_of
  persisted_of value = do
    fields ← as_record value
    fetched_at ← as_integer (get (codes "fetchedAtSeconds") fields)
    entries ← get (codes "keys") fields
    keys ← keys_of entries
    some (record {
      fetched_at_seconds = fetched_at;
      keys = keys;
      last_refresh_attempt_seconds = as_integer (get (codes "lastRefreshAttemptSeconds") fields);
      refresh_unavailable = get_or (as_bool (get (codes "refreshUnavailable") fields)) false;
    })

  abbrev pub restore : Cache Key → Option (Persisted Key) → Cache Key
  restore s none = s
  restore s (some persisted) = record s {
    keys = some persisted.keys;
    fetched_at_seconds = some persisted.fetched_at_seconds;
    last_refresh_attempt_seconds = persisted.last_refresh_attempt_seconds;
    refresh_unavailable = persisted.refresh_unavailable;
  }

  abbrev pub persisted_in : Option Text → Storage → Option (Persisted Key)
  persisted_in slot items = do
    key ← slot
    raw ← get_item key items
    value ← setup.parse raw
    persisted_of value

  abbrev pub read_missing : Option (List Key) → Cache Key → Cache Key
  read_missing (some keys) s = s
  read_missing none s = restore s (persisted_in setup.slot s.store)

  unfoldable pub read_persisted : Cache Key → Cache Key
  unfolding persisted_of
  read_persisted s = read_missing s.keys s

  abbrev pub write_slot : Option Text → Text → Storage → Storage
  write_slot none value items = items
  write_slot (some key) value items = set_item key value items

  unfoldable pub persist : ℤ → List Key → Cache Key → Cache Key
  persist at next s = record s {
    store =
        write_slot setup.slot
          (setup.stringify (record {
            fetched_at_seconds = at;
            keys = next;
            last_refresh_attempt_seconds = s.last_refresh_attempt_seconds;
            refresh_unavailable = s.refresh_unavailable;
          }))
          s.store;
  }

  -- The end of `performFetch`, begun at the time given, and the `finally` of `fetchAndStore`.
  unfoldable pub fetched : ℕ → Option (List Key) → Cache Key → Cache Key
  unfolding persist
  fetched at (some fresh) s = persist (pos at) fresh (record s {
    keys = some fresh;
    fetched_at_seconds = some (pos at);
    refresh_unavailable = false;
    in_flight = false;
  })
  fetched at none s = persist (get_or s.fetched_at_seconds (pos 0)) (get_or s.keys []) (record s {
    refresh_unavailable = true;
    last_refresh_attempt_seconds = some (pos at);
    in_flight = false;
  })

  abbrev pub mark : Bool → Cache Key → Cache Key
  mark true s = record s { last_refresh_attempt_seconds = some (pos s.now); in_flight = true }
  mark false s = record s { in_flight = true }

  unfoldable pub fetch_and_store : Bool → (Cache Key → Lookup Key) → Cache Key → Lookup Key
  unfolding fetched
  fetch_and_store marked k s =
      if s.in_flight
      then joins s k
      else starts (mark marked s) (λ answer s'. k (fetched s.now answer s'))

  abbrev pub is_older : Option ℤ → ℕ → ℕ → Bool
  is_older none age now = true
  is_older (some t) age now = le_shifted t age (pos now) 0

  -- `lastRefreshAttemptSeconds === null || now - lastRefreshAttemptSeconds >= interval`
  unfoldable pub may_refresh : Cache Key → Bool
  may_refresh s = is_older s.last_refresh_attempt_seconds setup.min_refresh_interval_seconds s.now

  unfoldable pub is_stale : Cache Key → Bool
  is_stale s = is_older s.fetched_at_seconds setup.max_age_seconds s.now

  abbrev pub lacks_keys : Option (List Key) → Bool
  lacks_keys none = true
  lacks_keys (some _) = false

  unfoldable pub find_key : Text → Cache Key → Option Key
  find_key kid s = find (λ key. text_eq (setup.kid_of key) kid) (get_or s.keys [])

  abbrev pub miss : Cache Key → Lookup Key
  miss s = if s.refresh_unavailable then fails s else answers s none

  abbrev pub found_or : (Cache Key → Lookup Key) → Option Key → Cache Key → Lookup Key
  found_or otherwise none s = otherwise s
  found_or otherwise (some key) s = answers s (some key)

  unfoldable pub last_search : Text → Cache Key → Lookup Key
  unfolding find_key
  last_search kid s = found_or miss (find_key kid s) s

  unfoldable pub refresh_unknown : Text → Cache Key → Lookup Key
  unfolding may_refresh fetch_and_store last_search
  refresh_unknown kid s = if may_refresh s then fetch_and_store true (last_search kid) s else miss s

  unfoldable pub search : Text → Cache Key → Lookup Key
  unfolding find_key refresh_unknown
  search kid s = found_or (refresh_unknown kid) (find_key kid s) s

  unfoldable pub get_key : Text → Cache Key → Lookup Key
  unfolding read_persisted is_stale may_refresh fetch_and_store search
  get_key kid s =
      let s1 = read_persisted s in
      if (lacks_keys s1.keys || is_stale s1) && may_refresh s1
      then fetch_and_store false (search kid) s1
      else search kid s1
