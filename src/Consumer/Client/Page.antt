-- ===== src/Consumer/Client/Page.antt =====
-- The tasks of one page: operations of client.ts that have begun and wait, over the state that they
-- share. A turn takes up one of them, with whatever it waited for, at any later time.
use user_service_platform.Prelude.{
  ℕ, ◌+◌, ◌≤◌, ◌<◌, ◌≡◌, refl, ◌∙◌, ap, inl, inr, List, [], ◌∷◌, Option, none, All, arith,
}
use user_service_platform.Consumer.Storage.{load_stored_session}
use user_service_platform.Consumer.Client.{
  Setup, State, Identity, Request, Answer, Step, returns, throws, awaits, load,
}
use user_service_platform.Consumer.Client.Session.{login, recover_session, get_snapshot, logout}
use user_service_platform.Consumer.Client.Superseded.{Same, state_of, IsGuarded}
use user_service_platform.Text.{Text}
use user_service_platform.Consumer.Client.Superseded.Operations.{
  login-IsGuarded, recover_session-IsGuarded, get_snapshot-IsGuarded,
}
use user_service_platform.Consumer.Client.Logout.{IsPassive, logout-clears}

-- An operation, with the number of its attempt and what is left of it.
pub record Task : Type 1 where
  pub Value : Type 0
  pub attempt : ℕ
  pub step : Step Value

pub record Page : Type 1 where
  pub state : State
  pub tasks : List Task

-- One task goes on.
pub data Turn : Page → Page → Type 1 where
  first :
      {Value : Type 0} (attempt : ℕ) (paused state : State) (now : ℕ) (request : Request)
      (rest : Answer request → State → Step Value) (answer : Answer request) (tasks : List Task)
      → Turn
          (record {
            state = state;
            tasks =
                record { Value = Value; attempt = attempt; step = awaits paused request rest }
                ∷ tasks;
          })
          (record {
            state = state_of (rest answer (record state { now = now }));
            tasks =
                record {
                  Value = Value;
                  attempt = attempt;
                  step = rest answer (record state { now = now });
                }
                ∷ tasks;
          })
  later :
      {state next : State} {tasks others : List Task} (task : Task)
      → Turn (record { state = state; tasks = tasks }) (record { state = next; tasks = others })
      → Turn
          (record { state = state; tasks = task ∷ tasks })
          (record { state = next; tasks = task ∷ others })

pub data Reach (start : Page) : Page → Type 1 where
  here : Reach start start
  turn : {page next : Page} → Reach start page → Turn page next → Reach start next

-- The attempt has been replaced.
abbrev IsOld : ℕ → Task → Type 0
IsOld generation task = (task.attempt < generation) × IsGuarded task.attempt task.step

pub record Keeps (generation : ℕ) (from page : Page) : Type 1 where
  pub same : Same from.state page.state
  pub old : All (IsOld generation) page.tasks

-- A turn of replaced tasks keeps the store.
Turn-Keeps :
    {page next : Page} (generation : ℕ)
    → Turn page next
    → page.state.generation ≡ generation
    → All (IsOld generation) page.tasks
    → Keeps generation page next
unfolding IsGuarded
Turn-Keeps generation (first attempt paused state now request rest answer tasks) e (old, others) =
    let (guarded, kept) = old.1 answer (record state { now = now }) in
    record {
      same = elim kept [
        | inl current ↦ absurd (omega (arith, current, e, old.0))
        | inr same ↦ same
      ];
      old = ((old.0, guarded), others);
    }
Turn-Keeps generation (later task step) e (old, others) =
    let rest = Turn-Keeps generation step e others in
    record { same = rest.same; old = (old, rest.old) }

Reach-Keeps :
    (start : Page) (generation : ℕ) {page : Page}
    → start.state.generation ≡ generation
    → All (IsOld generation) start.tasks
    → Reach start page
    → Keeps generation start page
Reach-Keeps start generation e old here = record { same = (refl, refl); old = old }
Reach-Keeps start generation e old (turn reached step) =
    let before = Reach-Keeps start generation e old reached in
    let after = Turn-Keeps generation step (before.same.0 ∙ e) before.old in
    record { same = (after.same.0 ∙ before.same.0, after.same.1 ∙ before.same.1); old = after.old }

IsPassive-IsGuarded :
    {A : Type 0} (attempt : ℕ) (step : Step A) → IsPassive step → IsGuarded attempt step
unfolding IsPassive IsGuarded
IsPassive-IsGuarded attempt (returns s a) h = tt
IsPassive-IsGuarded attempt (throws s e) h = tt
IsPassive-IsGuarded attempt (awaits s r k) h =
    λ answer s'. (IsPassive-IsGuarded attempt (k answer s') (h answer s').0, inr (h answer s').1)

-- What is left of an operation of client.ts that has begun, with the number of its attempt: after its
-- first turn, and after every turn that takes it up, with any answer and at any state of the page.
pub data Begun (setup : Setup) : Task → Type 1 where
  login_begun :
      (email password : Text) (s : State)
      → Begun setup (record {
        Value = Identity;
        attempt = s.generation + 1;
        step = login setup email password s;
      })
  recovery_begun :
      (s : State)
      → Begun setup (record {
        Value = Option Identity;
        attempt = s.generation;
        step = recover_session setup s;
      })
  snapshot_begun :
      (s : State)
      → Begun setup
          (record { Value = Option Identity; attempt = s.generation; step = get_snapshot setup s })
  logout_begun :
      (s : State)
      → Begun setup (record { Value = Unit; attempt = s.generation; step = logout setup s })
  taken_up :
      {Value : Type 0} (attempt : ℕ) (paused : State) (request : Request)
      (rest : Answer request → State → Step Value) (answer : Answer request) (s : State)
      → Begun setup (record { Value = Value; attempt = attempt; step = awaits paused request rest })
      → Begun setup (record { Value = Value; attempt = attempt; step = rest answer s })

Begun-IsGuarded :
    (setup : Setup) {task : Task} → Begun setup task → IsGuarded task.attempt task.step
unfolding IsGuarded
Begun-IsGuarded setup (login_begun email password s) = login-IsGuarded setup email password s
Begun-IsGuarded setup (recovery_begun s) = recover_session-IsGuarded setup s
Begun-IsGuarded setup (snapshot_begun s) = get_snapshot-IsGuarded setup s
Begun-IsGuarded setup (logout_begun s) =
    let (clear, number, passive) = logout-clears setup s in
    IsPassive-IsGuarded s.generation (logout setup s) passive
Begun-IsGuarded setup (taken_up attempt paused request rest answer s begun) =
    (Begun-IsGuarded setup begun answer s).0

-- An operation of the page that began with this attempt or an earlier one.
abbrev pub IsPending : Setup → State → Task → Type 1
IsPending setup s task = (task.attempt ≤ s.generation) × Begun setup task

-- The page once a logout has begun.
abbrev pub logging_out : Setup → State → List Task → Page
logging_out setup s tasks = record {
  state = state_of (logout setup s);
  tasks = record { Value = Unit; attempt = s.generation; step = logout setup s } ∷ tasks;
}

pending-IsOld :
    (setup : Setup) (s : State) (tasks : List Task)
    → All (IsPending setup s) tasks
    → All (IsOld (s.generation + 1)) tasks
pending-IsOld setup s [] h = tt
pending-IsOld setup s (task ∷ tasks) (h, others) =
    ((omega (arith, h.0), Begun-IsGuarded setup h.1), pending-IsOld setup s tasks others)

-- However the tasks of a page go on after a logout has begun, with any answers in any order, the
-- logins, recoveries, snapshots and logouts that were pending, whatever turns they had taken, and
-- the logout itself leave no session and start no attempt: none of them restores what was cleared.
pub logging_out-IsFinal :
    (setup : Setup) (s : State) (tasks : List Task) (page : Page)
    → All (IsPending setup s) tasks
    → Reach (logging_out setup s tasks) page
    → (load setup page.state ≡ none) × (page.state.generation ≡ s.generation + 1)
logging_out-IsFinal setup s tasks page pending reached =
    let (clear, number, passive) = logout-clears setup s in
    let kept =
      Reach-Keeps (logging_out setup s tasks) (s.generation + 1) number
        (
          (omega arith, IsPassive-IsGuarded s.generation (logout setup s) passive),
          pending-IsOld setup s tasks pending,
        )
        reached in
    (
      ap (λ store. load_stored_session setup.codec setup.scope store) kept.same.1 ∙ clear,
      kept.same.0 ∙ number,
    )
