-- ===== src/Consumer/Client/Session.antt =====
-- login, renew, getSnapshot, recoverSession and logout of client.ts.
use user_service_platform.Prelude.{
  ℕ, Bool, true, false, not, ◌||◌, Option, none, some, Result, ok, err, ◌==◌, leb, if◌then◌else◌,
  get_or,
}
use user_service_platform.Prelude.Int.{ℤ, pos, le_shifted}
use user_service_platform.Text.{Text, codes, text_eq}
use user_service_platform.Consumer.Storage.{User, StoredSession}
use user_service_platform.Consumer.Client.{
  Setup, State, Identity, ClientError, Reply, answered, refused, unreachable, Step, returns, throws,
  awaits, post_login, post_token, get_me, post_sign_out, sleep, settle, join_renewal, Checked,
  valid, invalid, to_client_error, client_error, service_unavailable, network_unavailable,
  invalid_token, identity_of, session_of, load, discard, discard_if_current, save, verify_stored,
}

-- A promise followed by `.finally(act)`: act runs in a turn of its own, whichever way the steps end.
unfoldable pub finally : {A : Type 0} → (State → State) → Step A → Step A
finally act (returns s a) = awaits s settle (λ _ s'. returns (act s') a)
finally act (throws s e) = awaits s settle (λ _ s'. throws (act s') e)
finally act (awaits s r k) = awaits s r (λ a s'. finally act (k a s'))

-- `toTransportError` after a failed reply.
unfoldable pub failed : {A B : Type 0} → (A → State → Step B) → Reply A → State → Step B
unfolding to_client_error
failed k (answered a) s = k a s
failed k (refused status code) s = throws s (to_client_error code status)
failed k unreachable s = throws s network_unavailable

-- A refusal as unauthenticated ends the local session, unless another attempt replaced it.
unfoldable pub unless_unauthorized :
    {A B : Type 0} → Setup → ℕ → (A → State → Step (Option B)) → Reply A → State → Step (Option B)
unfolding to_client_error discard_if_current
unless_unauthorized setup attempt k (answered a) s = k a s
unless_unauthorized setup attempt k (refused status code) s =
    if status == 401
    then returns (discard_if_current setup attempt s) none
    else throws s (to_client_error code status)
unless_unauthorized setup attempt k unreachable s = throws s network_unavailable

-- The error that the first token request of a renewal ends in.
unfoldable pub renewal_error : ClientError → ClientError
renewal_error error =
    if leb 500 (get_or error.status 0) || text_eq error.code (codes "service-unavailable")
    then service_unavailable error.status
    else error

module _ (setup : Setup) where
  unfoldable pub renewal_checked :
      ℕ → StoredSession → Text → Checked → State → Step (Option Identity)
  unfolding discard save
  renewal_checked attempt stored token (valid subject expires_at) s =
      if attempt == s.generation
      then (if text_eq subject stored.user.id
          then returns (save setup (session_of token stored.user expires_at) s)
              (some (identity_of stored.user expires_at))
          else throws (discard setup s) invalid_token)
      else returns s none
  renewal_checked attempt stored token invalid s =
      if attempt == s.generation then throws (discard setup s) invalid_token else returns s none

  unfoldable pub renewal_issued : ℕ → StoredSession → Text → State → Step (Option Identity)
  unfolding verify_stored renewal_checked
  renewal_issued attempt stored token s =
      if attempt == s.generation
      then verify_stored setup token s.now (renewal_checked attempt stored token) s
      else returns s none

  unfoldable pub renewal_replied : ℕ → StoredSession → Reply Text → State → Step (Option Identity)
  unfolding to_client_error discard_if_current unless_unauthorized renewal_error renewal_issued
  renewal_replied attempt stored (answered token) s = renewal_issued attempt stored token s
  renewal_replied attempt stored (refused status code) s =
      if status == 401
      then returns (discard_if_current setup attempt s) none
      else throws s (renewal_error (to_client_error code status))
  renewal_replied attempt stored unreachable s = awaits s sleep (λ _ s1.
      awaits s1 post_token (unless_unauthorized setup attempt (renewal_issued attempt stored)))

  abbrev pub renew_from : Option StoredSession → State → Step (Option Identity)
  renew_from none s = returns s none
  renew_from (some stored) s = awaits s post_token (renewal_replied s.generation stored)

  unfoldable pub renew : State → Step (Option Identity)
  unfolding renewal_replied
  renew s = renew_from (load setup s) s

  abbrev pub joined : Result ClientError (Option Identity) → State → Step (Option Identity)
  joined (ok identity) s = returns s identity
  joined (err error) s = throws s error

  -- `coalescedRenew`: one renewal runs at a time, and the callers meanwhile wait for it.
  unfoldable pub coalesced_renew : State → Step (Option Identity)
  unfolding finally renew
  coalesced_renew s =
      if s.renewing
      then awaits s join_renewal joined
      else finally (λ s'. record s' { renewing = false }) (renew (record s { renewing = true }))

  unfoldable pub login_checked : ℕ → User → Text → Checked → State → Step Identity
  unfolding discard save
  login_checked attempt user token (valid subject expires_at) s =
      if attempt == s.generation
      then (if text_eq subject user.id
          then returns (save setup (session_of token user expires_at) s)
              (identity_of user expires_at)
          else throws (discard setup s) invalid_token)
      else throws s invalid_token
  login_checked attempt user token invalid s =
      if attempt == s.generation
      then throws (discard setup s) invalid_token
      else throws s invalid_token

  abbrev pub login_issued : ℕ → User → Text → State → Step Identity
  login_issued attempt user token s =
      verify_stored setup token s.now (login_checked attempt user token) s

  unfoldable pub login : Text → Text → State → Step Identity
  unfolding discard failed verify_stored login_checked
  login email password s =
      let s1 = discard setup s in
      awaits s1 (post_login email password)
        (failed (λ user s2. awaits s2 post_token (failed (login_issued s1.generation user))))

  unfoldable pub is_current : StoredSession → State → Bool
  is_current stored s = not (le_shifted stored.expires_at 0 (pos s.now) 0)

  unfoldable pub snapshot_checked : ℕ → StoredSession → Checked → State → Step (Option Identity)
  unfolding discard
  snapshot_checked attempt stored (valid subject expires_at) s =
      if attempt == s.generation
      then (if text_eq subject stored.user.id
          then returns s (some (identity_of stored.user expires_at))
          else returns (discard setup s) none)
      else returns s none
  snapshot_checked attempt stored invalid s =
      if attempt == s.generation then returns (discard setup s) none else returns s none

  abbrev pub snapshot_from : Option StoredSession → State → Step (Option Identity)
  snapshot_from none s = returns s none
  snapshot_from (some stored) s =
      if is_current stored s
      then verify_stored setup stored.access_token s.now (snapshot_checked s.generation stored) s
      else coalesced_renew s

  unfoldable pub get_snapshot : State → Step (Option Identity)
  unfolding is_current verify_stored snapshot_checked coalesced_renew
  get_snapshot s = snapshot_from (load setup s) s

  unfoldable pub recovery_read : ℕ → Text → Text → ℤ → User → State → Step (Option Identity)
  unfolding discard save
  recovery_read attempt token subject expires_at user s =
      if attempt == s.generation
      then (if text_eq subject user.id
          then returns (save setup (session_of token user expires_at) s)
              (some (identity_of user expires_at))
          else throws (discard setup s) invalid_token)
      else returns s none

  unfoldable pub recovery_checked : ℕ → Text → Checked → State → Step (Option Identity)
  unfolding discard unless_unauthorized recovery_read
  recovery_checked attempt token (valid subject expires_at) s =
      if attempt == s.generation
      then awaits s get_me
          (unless_unauthorized setup attempt (recovery_read attempt token subject expires_at))
      else returns s none
  recovery_checked attempt token invalid s =
      if attempt == s.generation then throws (discard setup s) invalid_token else returns s none

  abbrev pub recovery_issued : ℕ → Text → State → Step (Option Identity)
  recovery_issued attempt token s =
      verify_stored setup token s.now (recovery_checked attempt token) s

  unfoldable pub bootstrap : ℕ → State → Step (Option Identity)
  unfolding unless_unauthorized verify_stored recovery_checked
  bootstrap attempt s =
      awaits s post_token (unless_unauthorized setup attempt (recovery_issued attempt))

  unfoldable pub recovery_stored : ℕ → StoredSession → Checked → State → Step (Option Identity)
  unfolding bootstrap
  recovery_stored attempt stored (valid subject expires_at) s =
      if attempt == s.generation
      then (if text_eq subject stored.user.id
          then returns s (some (identity_of stored.user expires_at))
          else bootstrap attempt s)
      else returns s none
  recovery_stored attempt stored invalid s =
      if attempt == s.generation then bootstrap attempt s else returns s none

  abbrev pub recover_from : Option StoredSession → State → Step (Option Identity)
  recover_from none s = bootstrap s.generation s
  recover_from (some stored) s =
      if is_current stored s
      then verify_stored setup stored.access_token s.now (recovery_stored s.generation stored) s
      else bootstrap s.generation s

  unfoldable pub recover_session : State → Step (Option Identity)
  unfolding is_current verify_stored bootstrap recovery_stored
  recover_session s = recover_from (load setup s) s

  abbrev pub signed_out : Reply (Unit {0}) → State → Step (Unit {0})
  signed_out (answered _) s = returns s tt
  signed_out (refused status code) s = throws s (client_error (codes "logout-failed") (some status))
  signed_out unreachable s = throws s (client_error (codes "logout-failed") none)

  unfoldable pub logout : State → Step (Unit {0})
  unfolding discard
  logout s = awaits (discard setup s) post_sign_out signed_out
