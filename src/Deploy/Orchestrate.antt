-- ===== src/Deploy/Orchestrate.antt =====
-- orchestrate.ts: `runDeployment`, as the events of a deployment and its result. The preflight and the
-- commands are the caller's. The diagnostic tail of the smoke test, which changes no result, and the
-- log are left out.
pub mod Laws
use user_service_platform.Prelude.{
  ℕ, Bool, true, false, not, List, [], ◌∷◌, ◌++◌, map, Option, none, some, Result, ok, err, ◌==◌,
  if◌then◌else◌,
}
use user_service_platform.Text.{Text, codes, text_eq}
use user_service_platform.Deploy.Naming.{DeployableEnvironment, sandbox, production}

pub data DeploymentStep : Type 0 where
  preflight build_admin_assets validate_migrations_local migrate_remote : DeploymentStep
  deploy_worker record_deployment smoke_sandbox : DeploymentStep

-- The fields of `ResolvedDeployment` and `DeployRequest` that the order of the steps depends on.
pub record DeployRequest : Type 0 where
  pub environment : DeployableEnvironment
  pub worker_name : Text
  pub confirm : Option Text
  pub dry_run : Bool

pub record Command : Type 0 where
  pub step : DeploymentStep
  pub args : List Text

-- `DeployIo` and `DeployCommandRunner`: the path of the materialised configuration, whether the
-- preflight passes, and the exit code of a command; `none` where the call throws.
pub record DeployIo : Type 0 where
  pub materialize : Option Text
  pub preflight_passes : Bool
  pub run : Command → Option ℕ

pub data Event : Type 0 where
  preflighted : Event
  ran : Command → Event
  cleaned : Text → Event

pub data DeployError : Type 0 where
  not_materialized unconfirmed preflight_failed : DeployError
  runner_failed : DeploymentStep → DeployError
  step_failed : DeploymentStep → ℕ → DeployError

abbrev pub smoke_of {ℓ} : {A : Type ℓ} → DeployableEnvironment → A → List A
smoke_of sandbox step = step ∷ []
smoke_of production step = []

unfoldable pub plan_deployment_steps : DeployableEnvironment → List DeploymentStep
plan_deployment_steps environment =
    preflight
    ∷ build_admin_assets
    ∷ validate_migrations_local
    ∷ migrate_remote
    ∷ deploy_worker
    ∷ record_deployment
    ∷ smoke_of environment smoke_sandbox

abbrev pub confirmed_for : DeployableEnvironment → Option Text → Text → Bool
confirmed_for sandbox confirm worker_name = true
confirmed_for production none worker_name = false
confirmed_for production (some confirm) worker_name = text_eq confirm worker_name

-- `assertProductionConfirmed`.
abbrev pub is_confirmed : DeployRequest → Bool
is_confirmed request = confirmed_for request.environment request.confirm request.worker_name

abbrev pub migration_args : List Text → List Text
migration_args rest =
    codes "npx"
    ∷ codes "wrangler"
    ∷ codes "d1"
    ∷ codes "migrations"
    ∷ codes "apply"
    ∷ codes "DB"
    ∷ rest

-- The commands after the preflight, in order.
unfoldable pub commands_of : DeployableEnvironment → Text → List Command
commands_of environment path =
    record {
      step = build_admin_assets;
      args = codes "npm" ∷ codes "run" ∷ codes "build:admin" ∷ [];
    }
    ∷ record { step = validate_migrations_local; args = migration_args (codes "--local" ∷ []) }
    ∷ record {
      step = migrate_remote;
      args = migration_args (codes "--remote" ∷ codes "--config" ∷ path ∷ []);
    }
    ∷ record {
      step = deploy_worker;
      args = codes "npx" ∷ codes "wrangler" ∷ codes "deploy" ∷ codes "--config" ∷ path ∷ [];
    }
    ∷ record {
      step = record_deployment;
      args =
          codes "npx"
          ∷ codes "wrangler"
          ∷ codes "deployments"
          ∷ codes "list"
          ∷ codes "--config"
          ∷ path
          ∷ [];
    }
    ∷ smoke_of environment (record {
      step = smoke_sandbox;
      args = codes "npm" ∷ codes "run" ∷ codes "smoke:sandbox" ∷ [];
    })

abbrev pub Outcome : Type 0
Outcome = List Event × Result DeployError (List DeploymentStep)

-- `runStep`, with what follows it where the command exits with 0.
abbrev pub run_step : Command → Option ℕ → Outcome → Outcome
run_step command none rest = (ran command ∷ [], err (runner_failed command.step))
run_step command (some code) rest =
    if code == 0
    then (ran command ∷ rest.0, rest.1)
    else (ran command ∷ [], err (step_failed command.step code))

unfoldable pub run_steps : (Command → Option ℕ) → List DeploymentStep → List Command → Outcome
run_steps run steps [] = ([], ok steps)
run_steps run steps (command ∷ commands) =
    run_step command (run command) (run_steps run steps commands)

abbrev pub after_preflight : Outcome → Outcome
after_preflight outcome = (preflighted ∷ outcome.0, outcome.1)

-- What stands in the `try` block.
abbrev pub attempted : DeployRequest → DeployIo → Text → Outcome
attempted request io path =
    if not (is_confirmed request)
    then ([], err unconfirmed)
    else if not io.preflight_passes
    then (preflighted ∷ [], err preflight_failed)
    else if request.dry_run
    then (preflighted ∷ [], ok (plan_deployment_steps request.environment))
    else after_preflight (
        run_steps io.run (plan_deployment_steps request.environment)
          (commands_of request.environment path))

-- `finally`.
abbrev pub closed : Text → Outcome → Outcome
closed path outcome = (outcome.0 ++ (cleaned path ∷ []), outcome.1)

abbrev pub concluded : DeployRequest → DeployIo → Option Text → Outcome
concluded request io none = ([], err not_materialized)
concluded request io (some path) = closed path (attempted request io path)

unfoldable pub run_deployment : DeployRequest → DeployIo → Outcome
unfolding plan_deployment_steps commands_of run_steps
run_deployment request io = concluded request io io.materialize
