-- ===== src/Consumer/Client/Budget.antt =====
-- How many tokens an operation of client.ts asks the service for.
use user_service_platform.Prelude.{
  ℕ, zero, suc, ◌≡◌, refl, Bool, true, false, Option, none, some, ok, err, ◌==◌, if◌then◌else◌,
}
use user_service_platform.Prelude.Int.{ℤ}
use user_service_platform.Text.{Text, text_eq}
use user_service_platform.Consumer.Verifier.{read_token_kid}
use user_service_platform.Consumer.Storage.{User, StoredSession}
use user_service_platform.Consumer.Client.{
  Setup, State, Identity, ClientError, answered, refused, unreachable, keys_unavailable, no_key,
  cached, Request, Answer, post_login, post_token, get_me, post_sign_out, sleep, settle,
  check_signature, join_renewal, get_key, Step, returns, throws, awaits, Checked, valid, invalid,
  load, discard_if_current, resume, look_up, verify_kid, verify_stored,
}
use user_service_platform.Consumer.Client.Session.{
  finally, unless_unauthorized, renewal_checked, renewal_issued, renewal_replied, renew_from, renew,
  joined, coalesced_renew, is_current, snapshot_checked, snapshot_from, get_snapshot, recovery_read,
  recovery_checked, bootstrap, recovery_stored, recover_from, recover_session,
}

-- What is left of n token requests after the request.
abbrev pub left_after : Request → ℕ → Option ℕ
left_after post_token zero = none
left_after post_token (suc n) = some n
left_after (post_login email password) n = some n
left_after get_me n = some n
left_after post_sign_out n = some n
left_after sleep n = some n
left_after settle n = some n
left_after check_signature n = some n
left_after join_renewal n = some n
left_after (get_key kid) n = some n

abbrev pub With : Option ℕ → (ℕ → Type 0) → Type 0
With none P = ⊥
With (some n) P = P n

-- The steps ask for at most n tokens, whatever is answered.
unfoldable pub AsksAtMost : {A : Type 0} → ℕ → Step A → Type 0
AsksAtMost n (returns s a) = Unit
AsksAtMost n (throws s e) = Unit
AsksAtMost n (awaits s r k) =
    With (left_after r n) (λ m. (answer : Answer r) (s' : State) → AsksAtMost m (k answer s'))

ended : {A : Type 0} (n : ℕ) (s : State) (a : A) → AsksAtMost n (returns s a)
unfolding AsksAtMost
ended n s a = tt

thrown : (A : Type 0) (n : ℕ) (s : State) (e : ClientError) → AsksAtMost {A = A} n (throws s e)
unfolding AsksAtMost
thrown A n s e = tt

choice :
    {A : Type 0} (n : ℕ) (b : Bool) (x y : Step A)
    → AsksAtMost n x
    → AsksAtMost n y
    → AsksAtMost n (if b then x else y)
choice n true x y h k = h
choice n false x y h k = k

abbrev Frugal : {A B : Type 0} → ℕ → (B → State → Step A) → Type 0
Frugal n k = (b : _) (s : State) → AsksAtMost n (k b s)

With-map : {P Q : ℕ → Type 0} (o : Option ℕ) → With o P → ((n : ℕ) → P n → Q n) → With o Q
With-map none h f = h
With-map (some n) h f = f n h

asks :
    (A : Type 0) (n m : ℕ) (s : State) (r : Request) (k : Answer r → State → Step A)
    → left_after r n ≡ some m
    → Frugal m k
    → AsksAtMost n (awaits s r k)
unfolding AsksAtMost
asks A n m s r k e h = rw (e) h

module _ (setup : Setup) where
  look_up-Frugal :
      (A : Type 0) (n : ℕ) (token : Text) (at : ℕ) (k : Checked → State → Step A)
      → Frugal n k
      → Frugal n (look_up setup token at k)
  unfolding AsksAtMost look_up resume
  look_up-Frugal A n token at k h keys_unavailable s = tt
  look_up-Frugal A n token at k h no_key s = λ _ s'. h invalid s'
  look_up-Frugal A n token at k h (cached keys) s = λ _ s1 _ s2. h _ s2

  verify_kid-Frugal :
      (A : Type 0) (n : ℕ) (token : Text) (at : ℕ) (k : Checked → State → Step A)
      → Frugal n k
      → Frugal n (verify_kid setup token at k)
  unfolding AsksAtMost verify_kid resume
  verify_kid-Frugal A n token at k h none s = λ _ s'. h invalid s'
  verify_kid-Frugal A n token at k h (some kid) s =
      λ found s'. look_up-Frugal A n token at k h found s'

  frugal :
      (A : Type 0) (n : ℕ) (token : Text) (at : ℕ) (k : Checked → State → Step A)
      → Frugal n k
      → (s : State) → AsksAtMost n (verify_stored setup token at k s)
  unfolding verify_stored
  frugal A n token at k h s =
      verify_kid-Frugal A n token at k h (read_token_kid setup.platform token) s

  unless_unauthorized-Frugal :
      (A B : Type 0) (n attempt : ℕ) (k : A → State → Step (Option B))
      → Frugal n k
      → Frugal n (unless_unauthorized setup attempt k)
  unfolding unless_unauthorized
  unless_unauthorized-Frugal A B n attempt k h (answered a) s = h a s
  unless_unauthorized-Frugal A B n attempt k h (refused status code) s =
      choice n (status == 401) _ _ (ended n _ none) (thrown (Option B) n s _)
  unless_unauthorized-Frugal A B n attempt k h unreachable s = thrown (Option B) n s _

  renewal_checked-Frugal :
      (n attempt : ℕ) (stored : StoredSession) (token : Text)
      → Frugal n (renewal_checked setup attempt stored token)
  unfolding renewal_checked
  renewal_checked-Frugal n attempt stored token (valid subject expires_at) s =
      choice n (attempt == s.generation) _ _
        (choice n (text_eq subject stored.user.id) _ _ (ended n _ _) (thrown _ n _ _))
        (ended n s none)
  renewal_checked-Frugal n attempt stored token invalid s =
      choice n (attempt == s.generation) _ _ (thrown _ n _ _) (ended n s none)

  renewal_issued-Frugal :
      (n attempt : ℕ) (stored : StoredSession) → Frugal n (renewal_issued setup attempt stored)
  unfolding renewal_issued
  renewal_issued-Frugal n attempt stored token s =
      choice n (attempt == s.generation) _ _
        (frugal _ n token s.now _ (renewal_checked-Frugal n attempt stored token) s)
        (ended n s none)

  renewal_replied-Frugal :
      (n attempt : ℕ) (stored : StoredSession)
      → Frugal (suc n) (renewal_replied setup attempt stored)
  unfolding renewal_replied
  renewal_replied-Frugal n attempt stored (answered token) s =
      renewal_issued-Frugal (suc n) attempt stored token s
  renewal_replied-Frugal n attempt stored (refused status code) s =
      choice (suc n) (status == 401) _ _ (ended (suc n) (discard_if_current setup attempt s) none)
        (thrown (Option Identity) (suc n) s _)
  renewal_replied-Frugal n attempt stored unreachable s =
      asks _ (suc n) (suc n) s sleep _ refl λ _ s1. asks _ (suc n) n s1 post_token _ refl (
        unless_unauthorized-Frugal Text Identity n attempt _
          (renewal_issued-Frugal n attempt stored))

  renew_from-AsksAtMost :
      (s : State) (stored : Option StoredSession) → AsksAtMost 2 (renew_from setup stored s)
  unfolding AsksAtMost
  renew_from-AsksAtMost s none = tt
  renew_from-AsksAtMost s (some stored) =
      λ reply s'. renewal_replied-Frugal 0 s.generation stored reply s'

  finally-AsksAtMost :
      (A : Type 0) (n : ℕ) (act : State → State) (step : Step A)
      → AsksAtMost n step
      → AsksAtMost n (finally act step)
  unfolding finally AsksAtMost
  finally-AsksAtMost A n act (returns s a) h = λ _ _. tt
  finally-AsksAtMost A n act (throws s e) h = λ _ _. tt
  finally-AsksAtMost A n act (awaits s r k) h =
      With-map (left_after r n) h (λ m g a s'. finally-AsksAtMost A m act (k a s') (g a s'))

  joined-Frugal : (n : ℕ) → Frugal n (joined setup)
  joined-Frugal n (ok identity) s = ended n s identity
  joined-Frugal n (err error) s = thrown _ n s error

  coalesced_renew-AsksAtMost : (s : State) → AsksAtMost 2 (coalesced_renew setup s)
  unfolding coalesced_renew renew
  coalesced_renew-AsksAtMost s =
      choice 2 s.renewing _ _ (asks _ 2 2 s join_renewal _ refl (joined-Frugal 2)) (
        finally-AsksAtMost _ 2 _ _
          (renew_from-AsksAtMost (record s { renewing = true }) (load setup s)))

  snapshot_checked-Frugal :
      (n attempt : ℕ) (stored : StoredSession) → Frugal n (snapshot_checked setup attempt stored)
  unfolding snapshot_checked
  snapshot_checked-Frugal n attempt stored (valid subject expires_at) s =
      choice n (attempt == s.generation) _ _
        (choice n (text_eq subject stored.user.id) _ _ (ended n _ _) (ended n _ _)) (ended n s none)
  snapshot_checked-Frugal n attempt stored invalid s =
      choice n (attempt == s.generation) _ _ (ended n _ none) (ended n s none)

  recovery_read-Frugal :
      (n attempt : ℕ) (token subject : Text) (expires_at : ℤ)
      → Frugal n (recovery_read setup attempt token subject expires_at)
  unfolding recovery_read
  recovery_read-Frugal n attempt token subject expires_at user s =
      choice n (attempt == s.generation) _ _
        (choice n (text_eq subject user.id) _ _ (ended n _ _) (thrown _ n _ _)) (ended n s none)

  recovery_checked-Frugal :
      (n attempt : ℕ) (token : Text) → Frugal n (recovery_checked setup attempt token)
  unfolding recovery_checked
  recovery_checked-Frugal n attempt token (valid subject expires_at) s =
      choice n (attempt == s.generation) _ _
        (asks _ n n s get_me _ refl (
          unless_unauthorized-Frugal User Identity n attempt _
            (recovery_read-Frugal n attempt token subject expires_at)))
        (ended n s none)
  recovery_checked-Frugal n attempt token invalid s =
      choice n (attempt == s.generation) _ _ (thrown _ n _ _) (ended n s none)

  bootstrap-AsksAtMost : (attempt : ℕ) (s : State) → AsksAtMost 1 (bootstrap setup attempt s)
  unfolding bootstrap AsksAtMost
  bootstrap-AsksAtMost attempt s = λ reply s'.
      unless_unauthorized-Frugal Text Identity 0 attempt _
        (λ token s1.
          frugal (Option Identity) 0 token s1.now _ (recovery_checked-Frugal 0 attempt token) s1)
        reply s'

  recovery_stored-Frugal :
      (attempt : ℕ) (stored : StoredSession) → Frugal 1 (recovery_stored setup attempt stored)
  unfolding recovery_stored
  recovery_stored-Frugal attempt stored (valid subject expires_at) s =
      choice 1 (attempt == s.generation) _ _
        (choice 1 (text_eq subject stored.user.id) _ _ (ended 1 _ _)
          (bootstrap-AsksAtMost attempt s))
        (ended 1 s none)
  recovery_stored-Frugal attempt stored invalid s =
      choice 1 (attempt == s.generation) _ _ (bootstrap-AsksAtMost attempt s) (ended 1 s none)

  snapshot_from-AsksAtMost :
      (s : State) (stored : Option StoredSession) → AsksAtMost 2 (snapshot_from setup stored s)
  snapshot_from-AsksAtMost s none = ended 2 s none
  snapshot_from-AsksAtMost s (some stored) =
      choice 2 (is_current setup stored s) _ _
        (frugal _ 2 stored.access_token s.now _ (snapshot_checked-Frugal 2 s.generation stored) s)
        (coalesced_renew-AsksAtMost s)

  recover_from-AsksAtMost :
      (s : State) (stored : Option StoredSession) → AsksAtMost 1 (recover_from setup stored s)
  recover_from-AsksAtMost s none = bootstrap-AsksAtMost s.generation s
  recover_from-AsksAtMost s (some stored) =
      choice 1 (is_current setup stored s) _ _
        (frugal _ 1 stored.access_token s.now _ (recovery_stored-Frugal s.generation stored) s)
        (bootstrap-AsksAtMost s.generation s)

-- A snapshot asks the service for at most two tokens, and a recovery for at most one, whatever is
-- stored and answered.
pub token_requests :
    (setup : Setup) (s : State)
    → AsksAtMost 2 (get_snapshot setup s) × AsksAtMost 1 (recover_session setup s)
unfolding get_snapshot recover_session
token_requests setup s = (
  snapshot_from-AsksAtMost setup s (load setup s),
  recover_from-AsksAtMost setup s (load setup s),
)
