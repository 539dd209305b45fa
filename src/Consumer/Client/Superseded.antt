-- ===== src/Consumer/Client/Superseded.antt =====
-- What an attempt of client.ts does in the turns after another operation has taken its place.
pub mod Operations
use user_service_platform.Prelude.{
  ℕ, suc, ◌+◌, ◌≡◌, ◌⊎◌, refl, sym, Bool, true, false, Option, none, some, Result, ok, err, ◌==◌,
  ==_iff, leb, Bool-cases, inl, inr, if◌then◌else◌, arith,
}
use user_service_platform.Prelude.Int.{ℤ}
use user_service_platform.Text.{Text, text_eq}
use user_service_platform.Consumer.Verifier.{read_token_kid}
use user_service_platform.Consumer.Storage.{User, StoredSession}
use user_service_platform.Consumer.Client.{
  Setup, State, Identity, ClientError, Reply, answered, refused, unreachable, Lookup,
  keys_unavailable, no_key, cached, Request, Answer, Step, returns, throws, awaits, Checked, valid,
  invalid, session_of, identity_of, invalid_token, load, discard, discard_if_current, save, resume,
  look_up, verify_kid, verify_stored,
}
use user_service_platform.Consumer.Client.Session.{
  finally, failed, unless_unauthorized, renewal_checked, renewal_issued, renewal_replied,
  renew_from, renew, joined, coalesced_renew, login_checked, login, is_current, snapshot_checked,
  snapshot_from, get_snapshot, recovery_read, recovery_checked, bootstrap, recovery_stored,
  recover_from, recover_session,
}

-- The stored items and the number of the latest attempt are as they were.
abbrev pub Same : State → State → Type 0
Same s t = (t.generation ≡ s.generation) × (t.store ≡ s.store)

-- The state at the end of a turn.
abbrev pub state_of : {A : Type 0} → Step A → State
state_of (returns s a) = s
state_of (throws s e) = s
state_of (awaits s r k) = s

-- Every later turn, whatever was answered, starts under the attempt's number or writes nothing.
unfoldable pub IsGuarded : {A : Type 0} → ℕ → Step A → Type 0
IsGuarded attempt (returns s a) = Unit
IsGuarded attempt (throws s e) = Unit
IsGuarded attempt (awaits s r k) =
    (answer : Answer r) (s' : State)
    → IsGuarded attempt (k answer s')
      × ((s'.generation ≡ attempt) ⊎ Same s' (state_of (k answer s')))

-- A turn that starts in s and goes on as the step says.
pub record Turn {A : Type 0} (attempt : ℕ) (s : State) (step : Step A) : Type 0 where
  pub guarded : IsGuarded attempt step
  pub kept : (s.generation ≡ attempt) ⊎ Same s (state_of step)

abbrev pub Turns : {A B : Type 0} → ℕ → (B → State → Step A) → Type 0
Turns attempt k = (b : _) (s : State) → Turn attempt s (k b s)

pub pauses :
    (A : Type 0) (attempt : ℕ) (s : State) (r : Request) (k : Answer r → State → Step A)
    → Turns attempt k
    → Turn attempt s (awaits s r k)
unfolding IsGuarded
pauses A attempt s r k h = record {
  guarded = λ answer s'. ((h answer s').guarded, (h answer s').kept);
  kept = inr (refl, refl);
}

pub ends : {A : Type 0} (attempt : ℕ) (s : State) (a : A) → Turn attempt s (returns s a)
unfolding IsGuarded
ends attempt s a = record { guarded = tt; kept = inr (refl, refl) }

pub fails :
    (A : Type 0) (attempt : ℕ) (s : State) (e : ClientError) → Turn {A = A} attempt s (throws s e)
unfolding IsGuarded
fails A attempt s e = record { guarded = tt; kept = inr (refl, refl) }

pub returns-IsGuarded :
    {A : Type 0} (attempt : ℕ) (s : State) (a : A) → IsGuarded attempt (returns s a)
unfolding IsGuarded
returns-IsGuarded attempt s a = tt

pub throws-IsGuarded :
    (A : Type 0) (attempt : ℕ) (s : State) (e : ClientError)
    → IsGuarded {A = A} attempt (throws s e)
unfolding IsGuarded
throws-IsGuarded A attempt s e = tt

pub either :
    {A : Type 0} (attempt : ℕ) (s : State) (b : Bool) (x y : Step A)
    → Turn attempt s x
    → Turn attempt s y
    → Turn attempt s (if b then x else y)
either attempt s true x y h k = h
either attempt s false x y h k = k

-- What stands behind the test of the number may write.
current :
    {A : Type 0} (attempt : ℕ) (s : State) (b : Bool) (x y : Step A)
    → (b ≡ true → attempt ≡ s.generation)
    → IsGuarded attempt x
    → Turn attempt s y
    → Turn attempt s (if b then x else y)
current attempt s true x y h g k = record { guarded = g; kept = inl (sym (h refl)) }
current attempt s false x y h g k = k

pub when_current :
    {A : Type 0} (attempt : ℕ) (s : State) (x y : Step A)
    → IsGuarded attempt x
    → Turn attempt s y
    → Turn attempt s (if attempt == s.generation then x else y)
when_current attempt s x y g k =
    current attempt s (attempt == s.generation) x y (==_iff attempt s.generation).0 g k

pub if-IsGuarded :
    {A : Type 0} (attempt : ℕ) (b : Bool) (x y : Step A)
    → IsGuarded attempt x
    → IsGuarded attempt y
    → IsGuarded attempt (if b then x else y)
if-IsGuarded attempt true x y h k = h
if-IsGuarded attempt false x y h k = k

discard_if_current-Same :
    (setup : Setup) (attempt : ℕ) (s : State)
    → (s.generation ≡ attempt) ⊎ Same s (discard_if_current setup attempt s)
unfolding discard_if_current
discard_if_current-Same setup attempt s = ground arith

pub discarded :
    {A : Type 0} (setup : Setup) (attempt : ℕ) (s : State) (a : A)
    → Turn attempt s (returns (discard_if_current setup attempt s) a)
discarded setup attempt s a = record {
  guarded = returns-IsGuarded attempt _ a;
  kept = discard_if_current-Same setup attempt s;
}

module _ (setup : Setup) (attempt : ℕ) where
  resume-Turns :
      (A : Type 0) (k : Checked → State → Step A) → Turns attempt k → Turns attempt (resume setup k)
  unfolding resume
  resume-Turns A k h checked s = pauses A attempt s _ _ (λ _ s'. h checked s')

  look_up-Turns :
      (A : Type 0) (token : Text) (at : ℕ) (k : Checked → State → Step A)
      → Turns attempt k
      → Turns attempt (look_up setup token at k)
  unfolding look_up
  look_up-Turns A token at k h keys_unavailable s = fails A attempt s _
  look_up-Turns A token at k h no_key s = resume-Turns A k h invalid s
  look_up-Turns A token at k h (cached keys) s =
      pauses A attempt s _ _ (λ _ s'. resume-Turns A k h _ s')

  verify_kid-Turns :
      (A : Type 0) (token : Text) (at : ℕ) (k : Checked → State → Step A)
      → Turns attempt k
      → Turns attempt (verify_kid setup token at k)
  unfolding verify_kid
  verify_kid-Turns A token at k h none s = resume-Turns A k h invalid s
  verify_kid-Turns A token at k h (some kid) s =
      pauses A attempt s _ _ (look_up-Turns A token at k h)

  pub verified :
      (A : Type 0) (token : Text) (at : ℕ) (k : Checked → State → Step A)
      → Turns attempt k
      → (s : State) → Turn attempt s (verify_stored setup token at k s)
  unfolding verify_stored
  verified A token at k h s =
      verify_kid-Turns A token at k h (read_token_kid setup.platform token) s

  pub failed-Turns :
      (A B : Type 0) (k : A → State → Step B) → Turns attempt k → Turns attempt (failed k)
  unfolding failed
  failed-Turns A B k h (answered a) s = h a s
  failed-Turns A B k h (refused status code) s = fails B attempt s _
  failed-Turns A B k h unreachable s = fails B attempt s _

  pub unless_unauthorized-Turns :
      (A B : Type 0) (k : A → State → Step (Option B))
      → Turns attempt k
      → Turns attempt (unless_unauthorized setup attempt k)
  unfolding unless_unauthorized
  unless_unauthorized-Turns A B k h (answered a) s = h a s
  unless_unauthorized-Turns A B k h (refused status code) s =
      either attempt s (status == 401) _ _ (discarded setup attempt s none)
        (fails (Option B) attempt s _)
  unless_unauthorized-Turns A B k h unreachable s = fails (Option B) attempt s _

  renewal_checked-Turns :
      (stored : StoredSession) (token : Text)
      → Turns attempt (renewal_checked setup attempt stored token)
  unfolding renewal_checked
  renewal_checked-Turns stored token (valid subject expires_at) s =
      when_current attempt s _ _
        (if-IsGuarded attempt (text_eq subject stored.user.id) _ _ (returns-IsGuarded attempt _ _)
          (throws-IsGuarded _ attempt _ _))
        (ends attempt s none)
  renewal_checked-Turns stored token invalid s =
      when_current attempt s _ _ (throws-IsGuarded _ attempt _ _) (ends attempt s none)

  pub renewal_issued-Turns :
      (stored : StoredSession) → Turns attempt (renewal_issued setup attempt stored)
  unfolding renewal_issued
  renewal_issued-Turns stored token s =
      either attempt s (attempt == s.generation) _ _
        (verified _ token s.now _ (renewal_checked-Turns stored token) s) (ends attempt s none)

  pub renewal_replied-Turns :
      (stored : StoredSession) → Turns attempt (renewal_replied setup attempt stored)
  unfolding renewal_replied
  renewal_replied-Turns stored (answered token) s = renewal_issued-Turns stored token s
  renewal_replied-Turns stored (refused status code) s =
      either attempt s (status == 401) _ _ (discarded setup attempt s none) (fails _ attempt s _)
  renewal_replied-Turns stored unreachable s = pauses _ attempt s _ _ λ _ s1.
      pauses _ attempt s1 _ _
        (unless_unauthorized-Turns Text Identity _ (renewal_issued-Turns stored))
