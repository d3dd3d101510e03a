-- ===== src/Command/Run.antt =====
-- cmd/gardener-extension-networking-calico/app/app.go: what the command runs.
pub mod Started
use gardener_extension_netwo.Prelude.{String, Option, none, some, [], ◌∷◌}
use gardener_extension_netwo.Prelude.Result.{Result, ok, panic, errorf, non_nil}
use gardener_extension_netwo.Actuator.Seed.{Action, lift, ◌>>=◌, ◌>>◌}
use gardener_extension_netwo.Actuator.Reconcile.{wrapping}
use gardener_extension_netwo.Command.Config.{Loaders, apply_health_check_config}
use gardener_extension_netwo.Command.Setup.{
  Platform, Host, new_manager, add_to_scheme, controller_scheme, calico_scheme, start,
  default_add_options, health_check_add_options, add_to_manager, add_health_check_to_manager,
}
use gardener_extension_netwo.Command.Options.{
  CommandOptions, Completers, CompletedOptions, complete_options,
}

-- `if err != nil { controllercmd.LogErrAndExit(err, "…") }`; an exit is an error here.
abbrev pub exiting : {S : Type 0} → String → Action S (Unit {0}) → Action S (Unit {0})
exiting message m s = let (r, t) = m s in (wrapping message r, t)

module _ {P : Platform} {C : Type 0} (F : Loaders C) (K : Completers P C) (H : Host P) where
  -- `Run` behind the completion of the options.
  unfoldable pub run_completed : CompletedOptions P C → Action H.State (Unit {0})
  run_completed c = do
    config ← lift (non_nil c.config)
    exiting "Could not instantiate manager" (
        H.perform (
          new_manager (K.apply_client_connection config.config.client_connection c.rest)
            (K.client_disable_cache_for ("Secret" ∷ "ConfigMap" ∷ []) c.manager)))
    exiting "Could not update manager scheme" (H.perform (add_to_scheme controller_scheme))
    exiting "Could not update manager scheme" (H.perform (add_to_scheme calico_scheme))
    exiting "Could not add controllers to manager" (
        add_to_manager H (record {
          controller = c.controller (default_add_options {P = P}).controller;
          ignore_operation_annotation = c.ignore_operation_annotation;
        }))
    exiting "Could not add health check controller to manager" (
        add_health_check_to_manager H (record {
          controller = c.health_check_controller (health_check_add_options {P = P}).controller;
          health_check_config =
              apply_health_check_config config
                (health_check_add_options {P = P}).health_check_config;
        }))
    exiting "Error running manager" (H.perform start)

  unfoldable pub run_command : CommandOptions C → Action H.State (Unit {0})
  run_command o = do
    c ← lift (wrapping "Error completing options" (complete_options F K o))
    run_completed c
