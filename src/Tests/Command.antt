-- ===== src/Tests/Command.antt =====
-- The command with a configuration file, on a host that records its calls.
mod Stored
mod Main
mod Wired
use gardener_extension_netwo.Prelude.{
  ◌≡◌, refl, ℕ, suc, String, Bool, true, false, none, some, List, [], ◌∷◌, ◌++◌, ◌==◌, get_or,
  if◌then◌else◌,
}
use gardener_extension_netwo.Prelude.Result.{Result, ok, err, errorf, wrap}
use gardener_extension_netwo.Gardener.{Bytes}
use gardener_extension_netwo.Command.Config.{
  HealthCheckConfig, ControllerConfiguration, zero_configuration, Loaders, Config, ConfigOptions,
  load, load_from_file, build_config, complete, completed, options, apply_health_check_config,
}
use gardener_extension_netwo.Store.Copies.{IsCopy}
use gardener_extension_netwo.Api.DeepCopy.{zero_type_meta}
use gardener_extension_netwo.Command.Config.Completed.{complete-options}
use gardener_extension_netwo.Command.Setup.{
  Platform, Host, ActuatorFields, log_id, inject_client, inject_config, new_actuator,
}
use gardener_extension_netwo.Command.Setup.Injected.{inject-new_actuator}
use gardener_extension_netwo.Actuator.Seed.{◌>>◌}
use gardener_extension_netwo.Command.Options.{
  CommandOptions, new_command_options, Completers, CompletedOptions, complete_options,
}
use gardener_extension_netwo.Command.Run.{run_command}
use gardener_extension_netwo.Command.Run.Started.{
  ended, perform_all, startup_calls, run_command-startup_calls,
}

-- Client connections, REST configurations and options are numbers.
abbrev pub platform : Platform
platform = record {
  ChartRendererFactory = Unit;
  RestConfig = ℕ;
  Client = Unit;
  Clientset = Unit;
  ChartApplier = Unit;
  ControllerOptions = ℕ;
  ManagerOptions = List String;
  Predicates = Bool;
  zero_controller_options = 0;
  new_chart_renderer_for_shoot = tt;
  new_with_config = λ config. ok tt;
  chart_applier = λ clientset. tt;
  default_predicates = λ ignore. ignore;
}

abbrev configuration : ControllerConfiguration ℕ
configuration = record (zero_configuration {C = ℕ}) {
  client_connection = some 7;
  health_check_config = some (record { sync_period = 60 });
}

abbrev read_file : String → Result Bytes
read_file path = if path == "config.yaml" then ok (1 ∷ []) else err (errorf "no such file")

abbrev pub loaders : Loaders ℕ
loaders = record {
  Object = ControllerConfiguration ℕ;
  read_file = read_file;
  decode = λ bytes version kind into. ok configuration;
  as_controller_configuration = λ object. some object;
}

abbrev config_options : ConfigOptions ℕ
config_options = record { config_file_path = "config.yaml"; config = none }

abbrev no_path : ConfigOptions ℕ
no_path = record { config_file_path = ""; config = none }

abbrev default_health_check : HealthCheckConfig
default_health_check = record { sync_period = 30 }

complete_lem :
    complete loaders config_options
    ≡ (ok tt, record config_options { config = some (record { config = configuration }) })
unfolding complete build_config load_from_file load
complete_lem = refl

complete-options_lem :
    (c : Config ℕ) × (completed
        (record config_options { config = some (record { config = configuration }) })
      ≡ some c)
    × (("config.yaml" == "") ≡ false)
    × (load_from_file loaders "config.yaml" ≡ ok (options c))
    × (apply_health_check_config c default_health_check
        ≡ get_or (options c).health_check_config default_health_check)
complete-options_lem =
    complete-options loaders config_options default_health_check
      {o' = record config_options { config = some (record { config = configuration }) }}
      complete_lem

no_path_lem : complete loaders no_path ≡ (err (errorf "config file path not set"), no_path)
unfolding complete build_config
no_path_lem = refl

abbrev pub completers : Completers platform ℕ
completers = record {
  rest = ok 1;
  manager = λ elects id namespace. ok (id ∷ namespace ∷ []);
  controller = λ concurrent. ok (λ old. concurrent);
  reconciler = λ ignore. ok ignore;
  apply_client_connection = λ connection rest. get_or connection rest;
  client_disable_cache_for = λ objects manager. manager ++ objects;
}

-- It counts the calls.
abbrev pub host : Host platform
host = record { State = ℕ; perform = λ c n. (ok tt, suc n) }

abbrev pub command_options : CommandOptions ℕ
command_options = record (new_command_options {C = ℕ} "garden") { config = config_options }

abbrev pub completed_options : CompletedOptions platform ℕ
completed_options = record {
  rest = 1;
  manager = "networking-calico-leader-election" ∷ "garden" ∷ [];
  controller = λ old. 5;
  health_check_controller = λ old. 5;
  ignore_operation_annotation = true;
  config = some (record { config = configuration });
}

pub complete_options_lem :
    complete_options loaders completers command_options ≡ ok completed_options
unfolding complete_options complete build_config load_from_file load completed new_command_options
complete_options_lem = refl

run_command-startup_calls_lem :
    (given : ControllerConfiguration ℕ) × (load_from_file loaders "config.yaml" ≡ ok given)
    × (ended (run_command loaders completers host command_options 0)
        ≡ ended (perform_all host (startup_calls loaders completers completed_options given) 0))
run_command-startup_calls_lem =
    run_command-startup_calls loaders completers host command_options 0 {c = completed_options}
      complete_options_lem

abbrev options_without_path : CommandOptions ℕ
options_without_path = record (new_command_options {C = ℕ} "garden") { config = no_path }

not_completed_lem :
    complete_options loaders completers options_without_path
    ≡ err (errorf "config file path not set")
unfolding complete_options complete build_config new_command_options
not_completed_lem = refl

-- The command ends before any call.
no_call_lem :
    run_command loaders completers host options_without_path 0
    ≡ (err (wrap "Error completing options" (errorf "config file path not set")), 0)
unfolding run_command complete_options complete build_config new_command_options
no_call_lem = refl

abbrev injected : ActuatorFields platform
injected = record {
  logger = log_id;
  chart_renderer_factory = tt;
  rest_config = some 1;
  client = some tt;
  gardener_clientset = some tt;
  chart_applier = some tt;
}

inject-new_actuator_lem :
    (fields : ActuatorFields platform) × (fields ≡ injected)
    × ((inject_client {P = platform} tt >> inject_config {P = platform} 1)
          (new_actuator {P = platform} tt)
        ≡ (ok tt, fields))
    × ((inject_config {P = platform} 1 >> inject_client {P = platform} tt)
          (new_actuator {P = platform} tt)
        ≡ (ok tt, fields))
inject-new_actuator_lem = inject-new_actuator {P = platform} tt tt 1 {clientset = tt} refl
