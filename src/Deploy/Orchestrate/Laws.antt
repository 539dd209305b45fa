-- ===== src/Deploy/Orchestrate/Laws.antt =====
-- What a deployment may run, and that a deployment that succeeds has run its plan.
use user_service_platform.Prelude.{
  ℕ, Bool, true, false, not, List, [], ◌∷◌, ◌++◌, map, All, All-append, Option, none, some, Result,
  ok, err, ◌==◌, ==_iff, if◌then◌else◌, ◌≡◌, refl, sym, ap, ◌∙◌, ◌⊎◌, inl, inr, Bool-cases, arith,
}
use user_service_platform.Text.{Text}
use user_service_platform.Text.Laws.{text_eq_iff}
use user_service_platform.Deploy.Naming.{DeployableEnvironment, sandbox, production}
use user_service_platform.Deploy.Orchestrate.{
  DeploymentStep, preflight, DeployRequest, Command, DeployIo, Event, preflighted, ran, cleaned,
  DeployError, plan_deployment_steps, confirmed_for, is_confirmed, commands_of, Outcome, run_step,
  run_steps, attempted, concluded, run_deployment,
}

-- Production is confirmed by its worker's name.
abbrev pub IsConfirmed : DeployRequest → Type 0
IsConfirmed request = (request.environment ≡ sandbox) ⊎ (request.confirm ≡ some request.worker_name)

-- A command runs only for a confirmed request, after a preflight that passed, and not in a dry run.
abbrev pub IsCleared : DeployRequest → DeployIo → Event → Type 0
IsCleared request io (ran command) =
    IsConfirmed request × (io.preflight_passes ≡ true) × (request.dry_run ≡ false)
IsCleared request io _ = Unit

confirmed_sound :
    (environment : DeployableEnvironment) (confirm : Option Text) (worker_name : Text)
    → confirmed_for environment confirm worker_name ≡ true
    → (environment ≡ sandbox) ⊎ (confirm ≡ some worker_name)
confirmed_sound sandbox confirm worker_name h = inl refl
confirmed_sound production none worker_name h = ground arith
confirmed_sound production (some confirm) worker_name h =
    inr (ap some ((text_eq_iff confirm worker_name).0 h))

module _ (Good : Event → Type 0) (good : (command : Command) → Good (ran command)) where
  run_step-All :
      (command : Command) (code : Option ℕ) (rest : Outcome)
      → All Good rest.0
      → All Good (run_step command code rest).0
  run_step-All command none rest h = (good command, tt)
  run_step-All command (some code) rest h = elim (Bool-cases (code == 0)) [
    | inl e ↦ rw e (good command, h)
    | inr e ↦ rw e (good command, tt)
  ]

  run_steps-All :
      (run : Command → Option ℕ) (steps : List DeploymentStep) (commands : List Command)
      → All Good (run_steps run steps commands).0
  unfolding run_steps
  run_steps-All run steps [] = tt
  run_steps-All run steps (command ∷ commands) =
      run_step-All command (run command) (run_steps run steps commands)
        (run_steps-All run steps commands)

either_way :
    (P : Outcome → Type 0) (b : Bool) (one other : Outcome)
    → (b ≡ true → P one)
    → (b ≡ false → P other)
    → P (if b then one else other)
either_way P true one other h k = h refl
either_way P false one other h k = k refl

not-false : (b : Bool) → not b ≡ false → b ≡ true
not-false true h = refl
not-false false h = sym h

attempted-IsCleared :
    (request : DeployRequest) (io : DeployIo) (path : Text)
    → All (IsCleared request io) (attempted request io path).0
attempted-IsCleared request io path =
    let cleared = λ (outcome : Outcome). All (IsCleared request io) outcome.0 in
    either_way cleared (not (is_confirmed request)) _ _ (λ _. tt)
      (λ confirmed.
        either_way cleared (not io.preflight_passes) _ _ (λ _. (tt, tt))
          (λ passes.
            either_way cleared request.dry_run _ _ (λ _. (tt, tt))
              (λ real. (
                tt,
                run_steps-All (IsCleared request io)
                    (λ command. (
                      confirmed_sound request.environment request.confirm request.worker_name
                          (not-false (is_confirmed request) confirmed),
                      not-false io.preflight_passes passes,
                      real,
                    ))
                    io.run (plan_deployment_steps request.environment)
                    (commands_of request.environment path),
              ))))

materialized-IsCleared :
    (request : DeployRequest) (io : DeployIo) (path : Option Text)
    → All (IsCleared request io) (concluded request io path).0
materialized-IsCleared request io none = tt
materialized-IsCleared request io (some path) =
    All-append (IsCleared request io) (attempted request io path).0 (cleaned path ∷ [])
      (attempted-IsCleared request io path) (tt, tt)

-- A deployment runs a command only where the preflight has passed and the request is no dry run,
-- and in production only where the confirmation is the exact name of the worker.
pub run_deployment-IsCleared :
    (request : DeployRequest) (io : DeployIo)
    → All (IsCleared request io) (run_deployment request io).0
unfolding run_deployment
run_deployment-IsCleared request io = materialized-IsCleared request io io.materialize

-- A step whose run goes on has exited with 0.
run_step-ok :
    (command : Command) (code : Option ℕ) (rest : Outcome) (steps : List DeploymentStep)
    → (run_step command code rest).1 ≡ ok steps
    → (code ≡ some 0)
      × (rest.1 ≡ ok steps)
      × ((run_step command code rest).0 ≡ ran command ∷ rest.0)
run_step-ok command none rest steps h = cc
run_step-ok command (some code) rest steps h =
    either_way
      (λ outcome.
        outcome.1 ≡ ok steps
        → (◌≡◌ {A = Option ℕ} (some code) (some 0))
          × (rest.1 ≡ ok steps)
          × (outcome.0 ≡ ran command ∷ rest.0))
      (code == 0) _ _ (λ zero k. (ap some ((==_iff code 0).0 zero), k, refl)) (λ _ k. cc) h

run_steps-ok :
    (run : Command → Option ℕ) (plan steps : List DeploymentStep) (commands : List Command)
    → (run_steps run plan commands).1 ≡ ok steps
    → ((run_steps run plan commands).0 ≡ map ran commands)
      × (plan ≡ steps)
      × All (λ command. run command ≡ some 0) commands
unfolding run_steps
run_steps-ok run plan steps [] h = (refl, cc, tt)
run_steps-ok run plan steps (command ∷ commands) h =
    let now = run_step-ok command (run command) (run_steps run plan commands) steps h in
    let rest = run_steps-ok run plan steps commands now.1 in
    (now.2 ∙ ap (λ events. ran command ∷ events) rest.0, rest.1, (now.0, rest.2))

-- What a deployment that succeeds has done.
pub record HasRun (request : DeployRequest) (io : DeployIo) (steps : List DeploymentStep)
    : Type 0 where
  pub path : Text
  pub materialized : io.materialize ≡ some path
  pub planned :
      steps ≡ preflight ∷ map (λ command. command.step) (commands_of request.environment path)
  pub events :
      (run_deployment request io).0
      ≡ preflighted ∷ (map ran (commands_of request.environment path) ++ (cleaned path ∷ []))
  pub succeeded : All (λ command. io.run command ≡ some 0) (commands_of request.environment path)

plan-commands_of :
    (environment : DeployableEnvironment) (path : Text)
    → plan_deployment_steps environment
      ≡ preflight ∷ map (λ command. command.step) (commands_of environment path)
unfolding plan_deployment_steps commands_of
plan-commands_of sandbox path = refl
plan-commands_of production path = refl

err-ne-ok :
    (e : DeployError) (steps : List DeploymentStep)
    → ◌≡◌ {A = Result DeployError (List DeploymentStep)} (err e) (ok steps)
    → ⊥
err-ne-ok e steps h = cc

true-ne-false : true ≡ false → ⊥
true-ne-false h = cc

attempted-ok :
    (request : DeployRequest) (io : DeployIo) (path : Text) (steps : List DeploymentStep)
    → request.dry_run ≡ false
    → (attempted request io path).1 ≡ ok steps
    → ((attempted request io path).0 ≡ preflighted ∷ map ran (commands_of request.environment path))
      × (plan_deployment_steps request.environment ≡ steps)
      × All (λ command. io.run command ≡ some 0) (commands_of request.environment path)
attempted-ok request io path steps real h =
    let done = λ (outcome : Outcome).
      outcome.1 ≡ ok steps
      → (outcome.0 ≡ preflighted ∷ map ran (commands_of request.environment path))
        × (plan_deployment_steps request.environment ≡ steps)
        × All (λ command. io.run command ≡ some 0) (commands_of request.environment path) in
    either_way done (not (is_confirmed request)) _ _ (λ _ k. absurd (err-ne-ok _ _ k))
      (λ _.
        either_way done (not io.preflight_passes) _ _ (λ _ k. absurd (err-ne-ok _ _ k))
          (λ _.
            either_way done request.dry_run _ _ (λ dry k. absurd (true-ne-false (sym dry ∙ real)))
              (λ _ k.
                let run =
                  run_steps-ok io.run (plan_deployment_steps request.environment) steps
                    (commands_of request.environment path) k in
                (ap (λ events. preflighted ∷ events) run.0, run.1, run.2))))
      h

materialized-ok :
    (request : DeployRequest) (io : DeployIo) (found : Option Text) (steps : List DeploymentStep)
    → request.dry_run ≡ false
    → (concluded request io found).1 ≡ ok steps
    → (path : Text) × (found ≡ some path)
      × ((concluded request io found).0
          ≡ preflighted ∷ (map ran (commands_of request.environment path) ++ (cleaned path ∷ [])))
      × (plan_deployment_steps request.environment ≡ steps)
      × All (λ command. io.run command ≡ some 0) (commands_of request.environment path)
materialized-ok request io none steps real h = absurd (err-ne-ok _ _ h)
materialized-ok request io (some path) steps real h =
    let done = attempted-ok request io path steps real h in
    (path, refl, ap (λ events. events ++ (cleaned path ∷ [])) done.0, done.1, done.2)

-- A deployment that succeeds, and is no dry run, has run every command of its plan, in order and
-- once, each with exit code 0, between the preflight and the removal of its configuration, and
-- reports the steps of that plan.
pub run_deployment-HasRun :
    (request : DeployRequest) (io : DeployIo) (steps : List DeploymentStep)
    → request.dry_run ≡ false
    → (run_deployment request io).1 ≡ ok steps
    → HasRun request io steps
unfolding run_deployment
run_deployment-HasRun request io steps real h =
    let done = materialized-ok request io io.materialize steps real h in
    record {
      path = done.0;
      materialized = done.1;
      planned = sym done.3 ∙ plan-commands_of request.environment done.0;
      events = done.2;
      succeeded = done.4;
    }
