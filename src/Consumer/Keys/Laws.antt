-- ===== src/Consumer/Keys/Laws.antt =====
-- What a lookup of a verification key answers, and when it asks the service.
use user_service_platform.Prelude.{
  ℕ, ◌+◌, ◌<◌, ◌≡◌, refl, Bool, true, false, ◌&&◌, ◌||◌, List, [], Option, none, some, get_or,
  if◌then◌else◌, find_sound, arith,
}
use user_service_platform.Prelude.Int.{pos}
use user_service_platform.Text.{Text}
use user_service_platform.Text.Laws.{text_eq_iff}
use user_service_platform.Consumer.Keys.{
  Setup, Cache, Lookup, answers, fails, starts, joins, read_persisted, fetched, fetch_and_store,
  may_refresh, is_stale, lacks_keys, find_key, miss, found_or, last_search, refresh_unknown, search,
  get_key, persist,
}

module _ {Key : Type 0} (setup : Setup Key) where
  -- However the lookup ends, a key that it answers has the number that was asked for and is one of
  -- the cached keys.
  unfoldable pub AnswersFor : Text → Lookup Key → Type 0
  AnswersFor kid (answers s none) = Unit
  AnswersFor kid (answers s (some key)) =
      (setup.kid_of key ≡ kid) × (find_key setup kid s ≡ some key)
  AnswersFor kid (fails s) = Unit
  AnswersFor kid (starts s k) =
      (fresh : Option (List Key)) (s' : Cache Key) → AnswersFor kid (k fresh s')
  AnswersFor kid (joins s k) = (s' : Cache Key) → AnswersFor kid (k s')

  miss-AnswersFor : (kid : Text) (s : Cache Key) → AnswersFor kid (miss setup s)
  unfolding AnswersFor
  miss-AnswersFor kid s = choose s.refresh_unavailable
    where
      choose : (b : Bool) → AnswersFor kid (if b then fails s else answers s none)
      choose true = tt
      choose false = tt

  found_or-AnswersFor :
      (kid : Text) (otherwise : Cache Key → Lookup Key) (found : Option Key) (s : Cache Key)
      → find_key setup kid s ≡ found
      → AnswersFor kid (otherwise s)
      → AnswersFor kid (found_or setup otherwise found s)
  unfolding AnswersFor find_key
  found_or-AnswersFor kid otherwise none s e h = h
  found_or-AnswersFor kid otherwise (some key) s e h =
      ((text_eq_iff (setup.kid_of key) kid).0 (find_sound _ (get_or s.keys []) key e), e)

  fetch-AnswersFor :
      (kid : Text) (marked : Bool) (k : Cache Key → Lookup Key) (s : Cache Key)
      → ((s' : Cache Key) → AnswersFor kid (k s'))
      → AnswersFor kid (fetch_and_store setup marked k s)
  unfolding AnswersFor fetch_and_store
  fetch-AnswersFor kid marked k s h = choose s.in_flight _
    where
      choose :
          (b : Bool) (s1 : Cache Key)
          → AnswersFor kid
              (if b then joins s k else starts s1 (λ answer s'. k (fetched setup s.now answer s')))
      choose true s1 = h
      choose false s1 = λ answer s'. h (fetched setup s.now answer s')

  either :
      (kid : Text) (b : Bool) (x y : Lookup Key)
      → AnswersFor kid x
      → AnswersFor kid y
      → AnswersFor kid (if b then x else y)
  either kid true x y h k = h
  either kid false x y h k = k

  search-AnswersFor : (kid : Text) (s : Cache Key) → AnswersFor kid (search setup kid s)
  unfolding search refresh_unknown last_search
  search-AnswersFor kid s = found_or-AnswersFor kid _ (find_key setup kid s) s refl (
      either kid (may_refresh setup s) _ _
        (fetch-AnswersFor kid true _ s (λ s'.
          found_or-AnswersFor kid _ (find_key setup kid s') s' refl (miss-AnswersFor kid s')))
        (miss-AnswersFor kid s))

  -- Whatever the service and the other lookups do, a key that the cache answers has the number
  -- that was asked for, and is the first such key of the cache at that time.
  pub get_key-AnswersFor : (kid : Text) (s : Cache Key) → AnswersFor kid (get_key setup kid s)
  unfolding get_key
  get_key-AnswersFor kid s =
      let s1 = read_persisted setup s in
      either kid ((lacks_keys setup s1.keys || is_stale setup s1) && may_refresh setup s1) _ _
        (fetch-AnswersFor kid false _ s1 (search-AnswersFor kid))
        (search-AnswersFor kid (read_persisted setup s))

  -- The lookup ends without asking the service or waiting for it.
  unfoldable pub IsImmediate : Lookup Key → Type 0
  IsImmediate (answers s found) = Unit
  IsImmediate (fails s) = Unit
  IsImmediate (starts s k) = ⊥
  IsImmediate (joins s k) = ⊥

  miss-IsImmediate : (s : Cache Key) → IsImmediate (miss setup s)
  unfolding IsImmediate
  miss-IsImmediate s = choose s.refresh_unavailable
    where
      choose : (b : Bool) → IsImmediate (if b then fails s else answers s none)
      choose true = tt
      choose false = tt

  found_or-IsImmediate :
      (otherwise : Cache Key → Lookup Key) (found : Option Key) (s : Cache Key)
      → IsImmediate (otherwise s)
      → IsImmediate (found_or setup otherwise found s)
  unfolding IsImmediate
  found_or-IsImmediate otherwise none s h = h
  found_or-IsImmediate otherwise (some key) s h = tt

  waiting-IsImmediate :
      (kid : Text) (s : Cache Key) → may_refresh setup s ≡ false → IsImmediate (search setup kid s)
  unfolding search refresh_unknown
  waiting-IsImmediate kid s h =
      found_or-IsImmediate _ (find_key setup kid s) s (rw h (miss-IsImmediate s))

  and_false : (a b : Bool) → b ≡ false → (a && b) ≡ false
  and_false a b h = ground arith

  calm-IsImmediate :
      (kid : Text) (s : Cache Key)
      → read_persisted setup s ≡ s
      → may_refresh setup s ≡ false
      → IsImmediate (get_key setup kid s)
  unfolding get_key
  calm-IsImmediate kid s e h =
      rw (e, and_false (lacks_keys setup s.keys || is_stale setup s) (may_refresh setup s) h)
        (waiting-IsImmediate kid s h)

  loaded : (keys : List Key) (s : Cache Key) → s.keys ≡ some keys → read_persisted setup s ≡ s
  unfolding read_persisted
  loaded keys s h = rw h refl

  resting :
      (t : ℕ) (s : Cache Key)
      → s.last_refresh_attempt_seconds ≡ some (pos t)
      → s.now < t + setup.min_refresh_interval_seconds
      → may_refresh setup s ≡ false
  unfolding may_refresh
  resting t s h l = rw h (ground arith)

  -- Where the cache has keys and a fetch begun at t has failed, every lookup before the cooldown
  -- after t is over ends without asking the service or waiting for it, whatever key it is for.
  pub failed-IsImmediate :
      (kid : Text) (t later : ℕ) (keys : List Key) (s : Cache Key)
      → s.keys ≡ some keys
      → later < t + setup.min_refresh_interval_seconds
      → IsImmediate (get_key setup kid (record (fetched setup t none s) { now = later }))
  unfolding fetched persist
  failed-IsImmediate kid t later keys s h l =
      calm-IsImmediate kid (record (fetched setup t none s) { now = later })
        (loaded keys (record (fetched setup t none s) { now = later }) h)
        (resting t (record (fetched setup t none s) { now = later }) refl l)
