-- ===== src/Command/Options.antt =====
-- The options of `NewControllerManagerCommand` in
-- cmd/gardener-extension-networking-calico/app/app.go, and their completion.
use gardener_extension_netwo.Prelude.{ℕ, String, ◌<>◌, Bool, true, Option, none, List}
use gardener_extension_netwo.Prelude.Result.{Result, ok, ◌>>=◌}
use gardener_extension_netwo.Calico.{name}
use gardener_extension_netwo.Command.Config.{Loaders, Config, ConfigOptions, complete, completed}
use gardener_extension_netwo.Command.Setup.{Platform}

-- The options, with the fields of gardener's option structs that the command sets.
pub record CommandOptions (C : Type 0) : Type 0 where
  pub leader_election : Bool
  pub leader_election_id : String
  pub leader_election_namespace : String
  pub max_concurrent_reconciles : ℕ
  pub health_check_max_concurrent_reconciles : ℕ
  pub ignore_operation_annotation : Bool
  pub config : ConfigOptions C

-- Before the flags are read, for the value of LEADER_ELECTION_NAMESPACE.
unfoldable pub new_command_options : {C : Type 0} → String → CommandOptions C
new_command_options namespace = record {
  leader_election = true;
  leader_election_id = name <> "-leader-election";
  leader_election_namespace = namespace;
  max_concurrent_reconciles = 5;
  health_check_max_concurrent_reconciles = 5;
  ignore_operation_annotation = true;
  config = record { config_file_path = ""; config = none };
}

-- gardener's `Complete` for its own options, with what `Completed` gives after it, and the
-- functions that set a client connection and the cache.
pub record Completers (P : Platform) (C : Type 0) : Type 0 where
  pub rest : Result P.RestConfig
  pub manager : Bool → String → String → Result P.ManagerOptions
  pub controller : ℕ → Result (P.ControllerOptions → P.ControllerOptions)
  pub reconciler : Bool → Result Bool
  pub apply_client_connection : Option C → P.RestConfig → P.RestConfig
  pub client_disable_cache_for : List String → P.ManagerOptions → P.ManagerOptions

-- What the options are completed to.
pub record CompletedOptions (P : Platform) (C : Type 0) : Type 0 where
  pub rest : P.RestConfig
  pub manager : P.ManagerOptions
  pub controller : P.ControllerOptions → P.ControllerOptions
  pub health_check_controller : P.ControllerOptions → P.ControllerOptions
  pub ignore_operation_annotation : Bool
  pub config : Option (Config C)

module _ {P : Platform} {C : Type 0} (F : Loaders C) (K : Completers P C) where
  -- `aggOption.Complete`, in the order of the options.
  unfoldable pub complete_options : CommandOptions C → Result (CompletedOptions P C)
  complete_options o = do
    rest ← K.rest
    manager ← K.manager o.leader_election o.leader_election_id o.leader_election_namespace
    controller ← K.controller o.max_concurrent_reconciles
    health_check ← K.controller o.health_check_max_concurrent_reconciles
    ignore ← K.reconciler o.ignore_operation_annotation
    _ ← (complete F o.config).0
    ok (record {
      rest = rest;
      manager = manager;
      controller = controller;
      health_check_controller = health_check;
      ignore_operation_annotation = ignore;
      config = completed (complete F o.config).1;
    })
