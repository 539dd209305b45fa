-- ===== src/Consumer/Client/Logout.antt =====
-- logout of client.ts: what it does before it asks the service, and after.
use user_service_platform.Prelude.{◌+◌, ◌≡◌, refl, none}
use user_service_platform.Consumer.Storage.Laws.{load-clear}
use user_service_platform.Consumer.Client.{
  Setup, State, Reply, answered, refused, unreachable, Answer, Step, returns, throws, awaits, load,
  discard,
}
use user_service_platform.Consumer.Client.Session.{logout, signed_out}
use user_service_platform.Consumer.Client.Superseded.{Same, state_of}

-- No turn after the first writes.
unfoldable pub IsPassive : {A : Type 0} → Step A → Type 0
IsPassive (returns s a) = Unit
IsPassive (throws s e) = Unit
IsPassive (awaits s r k) =
    (answer : Answer r) (s' : State) → IsPassive (k answer s') × Same s' (state_of (k answer s'))

signed_out-IsPassive :
    (setup : Setup) (reply : Reply (Unit {0})) (s : State)
    → IsPassive (signed_out setup reply s) × Same s (state_of (signed_out setup reply s))
unfolding IsPassive
signed_out-IsPassive setup (answered _) s = (tt, (refl, refl))
signed_out-IsPassive setup (refused status code) s = (tt, (refl, refl))
signed_out-IsPassive setup unreachable s = (tt, (refl, refl))

-- A logout leaves no session and starts an attempt of its own before it asks the service, and
-- however the service answers it writes nothing more.
pub logout-clears :
    (setup : Setup) (s : State)
    → (load setup (state_of (logout setup s)) ≡ none)
      × ((state_of (logout setup s)).generation ≡ s.generation + 1)
      × IsPassive (logout setup s)
unfolding logout discard IsPassive
logout-clears setup s = (
  load-clear setup.codec setup.scope s.store,
  refl,
  λ reply s'. signed_out-IsPassive setup reply s',
)
