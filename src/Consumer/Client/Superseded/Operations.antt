-- ===== src/Consumer/Client/Superseded/Operations.antt =====
-- The operations of client.ts after another operation has taken their place.
use user_service_platform.Prelude.{
  ℕ, ◌+◌, ◌⊎◌, inl, inr, refl, ◌∙◌, true, false, Option, none, some, ok, err, ◌==◌,
}
use user_service_platform.Prelude.Int.{ℤ}
use user_service_platform.Text.{Text, text_eq}
use user_service_platform.Consumer.Storage.{User, StoredSession}
use user_service_platform.Consumer.Client.{
  Setup, State, Identity, Step, returns, throws, awaits, valid, invalid, load, discard,
}
use user_service_platform.Consumer.Client.Session.{
  finally, renew_from, renew, joined, coalesced_renew, login_checked, login, is_current,
  snapshot_checked, snapshot_from, get_snapshot, recovery_read, recovery_checked, bootstrap,
  recovery_stored, recover_from, recover_session,
}
use user_service_platform.Consumer.Client.Superseded.{
  Same, state_of, IsGuarded, Turn, Turns, pauses, ends, fails, returns-IsGuarded, throws-IsGuarded,
  either, when_current, if-IsGuarded, verified, failed-Turns, unless_unauthorized-Turns,
  renewal_replied-Turns,
}

through : {P : Type 0} (s t u : State) → Same t u → P ⊎ Same s t → P ⊎ Same s u
through s t u h (inl p) = inl p
through s t u h (inr g) = inr (h.0 ∙ g.0, h.1 ∙ g.1)

finally-IsGuarded :
    (A : Type 0) (attempt : ℕ) (act : State → State)
    → ((s : State) → Same s (act s))
    → (step : Step A) → IsGuarded attempt step
    → IsGuarded attempt (finally act step) × Same (state_of step) (state_of (finally act step))
unfolding finally IsGuarded
finally-IsGuarded A attempt act h (returns s a) g = (λ _ s'. (tt, inr (h s')), (refl, refl))
finally-IsGuarded A attempt act h (throws s e) g = (λ _ s'. (tt, inr (h s')), (refl, refl))
finally-IsGuarded A attempt act h (awaits s r k) g = (
  (λ a s'.
      let rest = finally-IsGuarded A attempt act h (k a s') (g a s').0 in
      (rest.0, through s' (state_of (k a s')) (state_of (finally act (k a s'))) rest.1 (g a s').1)),
  (refl, refl),
)

module _ (setup : Setup) where
  renew-Turn : (s : State) → Turn s.generation s (renew setup s)
  unfolding renew
  renew-Turn s = from (load setup s)
    where
      from : (stored : Option StoredSession) → Turn s.generation s (renew_from setup stored s)
      from none = ends s.generation s none
      from (some stored) =
          pauses _ s.generation s _ _ (renewal_replied-Turns setup s.generation stored)

  joined-Turns : (attempt : ℕ) → Turns attempt (joined setup)
  joined-Turns attempt (ok identity) s = ends attempt s identity
  joined-Turns attempt (err error) s = fails _ attempt s error

  coalesced_renew-Turn : (s : State) → Turn s.generation s (coalesced_renew setup s)
  unfolding coalesced_renew
  coalesced_renew-Turn s =
      either s.generation s s.renewing _ _ (pauses _ s.generation s _ _ (joined-Turns s.generation))
        (started (renew-Turn (record s { renewing = true })))
    where
      started :
          Turn s.generation
            (record s { renewing = true })
            (renew setup (record s { renewing = true }))
          → Turn s.generation s (
              finally
                (λ s'. record s' { renewing = false })
                (renew setup (record s { renewing = true })))
      started turn =
          let rest =
            finally-IsGuarded _ s.generation (λ s'. record s' { renewing = false })
              (λ _. (refl, refl)) _ turn.guarded in
          record {
            guarded = rest.0;
            kept =
                through s (state_of (renew setup (record s { renewing = true })))
                  (state_of (
                    finally (λ s'. record s' { renewing = false })
                      (renew setup (record s { renewing = true }))))
                  rest.1 turn.kept;
          }

  login_checked-Turns :
      (attempt : ℕ) (user : User) (token : Text)
      → Turns attempt (login_checked setup attempt user token)
  unfolding login_checked
  login_checked-Turns attempt user token (valid subject expires_at) s =
      when_current attempt s _ _
        (if-IsGuarded attempt (text_eq subject user.id) _ _ (returns-IsGuarded attempt _ _)
          (throws-IsGuarded _ attempt _ _))
        (fails _ attempt s _)
  login_checked-Turns attempt user token invalid s =
      when_current attempt s _ _ (throws-IsGuarded _ attempt _ _) (fails _ attempt s _)

  login-Turn :
      (email password : Text) (s : State)
      → Turn (s.generation + 1) (discard setup s) (login setup email password s)
  unfolding login discard
  login-Turn email password s = pauses _ _ _ _ _ (
      failed-Turns setup _ User Identity _ λ user s2. pauses _ _ s2 _ _ (
        failed-Turns setup _ Text Identity _
          λ token s3. verified setup _ _ token s3.now _ (login_checked-Turns _ user token) s3))

  snapshot_checked-Turns :
      (attempt : ℕ) (stored : StoredSession) → Turns attempt (snapshot_checked setup attempt stored)
  unfolding snapshot_checked
  snapshot_checked-Turns attempt stored (valid subject expires_at) s =
      when_current attempt s _ _
        (if-IsGuarded attempt (text_eq subject stored.user.id) _ _ (returns-IsGuarded attempt _ _)
          (returns-IsGuarded attempt _ _))
        (ends attempt s none)
  snapshot_checked-Turns attempt stored invalid s =
      when_current attempt s _ _ (returns-IsGuarded attempt _ _) (ends attempt s none)

  get_snapshot-Turn : (s : State) → Turn s.generation s (get_snapshot setup s)
  unfolding get_snapshot
  get_snapshot-Turn s = from (load setup s)
    where
      from : (stored : Option StoredSession) → Turn s.generation s (snapshot_from setup stored s)
      from none = ends s.generation s none
      from (some stored) =
          either s.generation s (is_current setup stored s) _ _
            (verified setup s.generation _ stored.access_token s.now _
              (snapshot_checked-Turns s.generation stored) s)
            (coalesced_renew-Turn s)

  recovery_read-Turns :
      (attempt : ℕ) (token subject : Text) (expires_at : ℤ)
      → Turns attempt (recovery_read setup attempt token subject expires_at)
  unfolding recovery_read
  recovery_read-Turns attempt token subject expires_at user s =
      when_current attempt s _ _
        (if-IsGuarded attempt (text_eq subject user.id) _ _ (returns-IsGuarded attempt _ _)
          (throws-IsGuarded _ attempt _ _))
        (ends attempt s none)

  recovery_checked-Turns :
      (attempt : ℕ) (token : Text) → Turns attempt (recovery_checked setup attempt token)
  unfolding recovery_checked
  recovery_checked-Turns attempt token (valid subject expires_at) s =
      either attempt s (attempt == s.generation) _ _
        (pauses _ attempt s _ _ (
          unless_unauthorized-Turns setup attempt User Identity _
            (recovery_read-Turns attempt token subject expires_at)))
        (ends attempt s none)
  recovery_checked-Turns attempt token invalid s =
      when_current attempt s _ _ (throws-IsGuarded _ attempt _ _) (ends attempt s none)

  bootstrap-Turn : (attempt : ℕ) (s : State) → Turn attempt s (bootstrap setup attempt s)
  unfolding bootstrap
  bootstrap-Turn attempt s = pauses _ attempt s _ _ (
      unless_unauthorized-Turns setup attempt Text Identity _ λ token s1.
        verified setup attempt _ token s1.now _ (recovery_checked-Turns attempt token) s1)

  recovery_stored-Turns :
      (attempt : ℕ) (stored : StoredSession) → Turns attempt (recovery_stored setup attempt stored)
  unfolding recovery_stored
  recovery_stored-Turns attempt stored (valid subject expires_at) s =
      either attempt s (attempt == s.generation) _ _
        (either attempt s (text_eq subject stored.user.id) _ _ (ends attempt s _)
          (bootstrap-Turn attempt s))
        (ends attempt s none)
  recovery_stored-Turns attempt stored invalid s =
      either attempt s (attempt == s.generation) _ _ (bootstrap-Turn attempt s)
        (ends attempt s none)

  recover_session-Turn : (s : State) → Turn s.generation s (recover_session setup s)
  unfolding recover_session
  recover_session-Turn s = from (load setup s)
    where
      from : (stored : Option StoredSession) → Turn s.generation s (recover_from setup stored s)
      from none = bootstrap-Turn s.generation s
      from (some stored) =
          either s.generation s (is_current setup stored s) _ _
            (verified setup s.generation _ stored.access_token s.now _
              (recovery_stored-Turns s.generation stored) s)
            (bootstrap-Turn s.generation s)

-- Whatever the service and the other tasks do, every turn of a login after its first starts while
-- the login's own discard is the latest attempt, or leaves the store and the number of attempts
-- alone.
pub login-IsGuarded :
    (setup : Setup) (email password : Text) (s : State)
    → IsGuarded (s.generation + 1) (login setup email password s)
login-IsGuarded setup email password s = (login-Turn setup email password s).guarded

-- Every turn of a snapshot after its first, in a renewal of its own too, starts while no attempt
-- has begun since, or leaves the store and the number of attempts alone.
pub get_snapshot-IsGuarded :
    (setup : Setup) (s : State) → IsGuarded s.generation (get_snapshot setup s)
get_snapshot-IsGuarded setup s = (get_snapshot-Turn setup s).guarded

-- Every turn of a recovery after its first starts while no attempt has begun since, or leaves the
-- store and the number of attempts alone.
pub recover_session-IsGuarded :
    (setup : Setup) (s : State) → IsGuarded s.generation (recover_session setup s)
recover_session-IsGuarded setup s = (recover_session-Turn setup s).guarded
