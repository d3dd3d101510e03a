-- ===== src/Command/Setup.antt =====
-- pkg/controller/actuator.go, pkg/controller/add.go and pkg/healthcheck/add.go: the actuator's
-- fields, and how the two controllers are added to a manager.
pub mod Watched
pub mod Injected
use gardener_extension_netwo.Prelude.{
  ℕ, String, Bool, false, Option, none, some, List, [], ◌∷◌, ◌*◌,
}
use gardener_extension_netwo.Prelude.Result.{Result, ok, err, panic, wrap}
use gardener_extension_netwo.Calico.{calico_type}
use gardener_extension_netwo.Actuator.Seed.{Action, ◌>>=◌, ◌>>◌}
use gardener_extension_netwo.Actuator.Reconcile.{calico_config_secret_name}
use gardener_extension_netwo.Command.Config.{HealthCheckConfig}

-- Types of gardener, client-go and controller-runtime whose values are only passed on, and the
-- functions that the code calls on them. `new_with_config` is `kubernetes.NewWithConfig`, which
-- returns nil with an error. `new_chart_renderer_for_shoot` is the function of that name.
pub record Platform : Type 1 where
  pub ChartRendererFactory : Type 0
  pub RestConfig : Type 0
  pub Client : Type 0
  pub Clientset : Type 0
  pub ChartApplier : Type 0
  pub ControllerOptions : Type 0
  pub ManagerOptions : Type 0
  pub Predicates : Type 0
  pub zero_controller_options : ControllerOptions
  pub new_chart_renderer_for_shoot : ChartRendererFactory
  pub new_with_config : RestConfig → Result Clientset
  pub chart_applier : Clientset → ChartApplier
  pub default_predicates : Bool → Predicates

pub data SchemeBuilder : Type 0 where
  controller_scheme calico_scheme resource_manager_scheme : SchemeBuilder

-- A condition of the shoot, and the managed resource whose health it is.
pub record ConditionTypeToHealthCheck : Type 0 where
  pub condition_type : String
  pub managed_resource : String

abbrev pub log_id : String
log_id = "network-calico-actuator"

-- `defaultSyncPeriod`, 30 seconds in nanoseconds
abbrev pub default_sync_period : ℕ
default_sync_period = 30 * 1000000000

module _ (P : Platform) where
  -- `actuator`; its logger is the name of the logger.
  pub record ActuatorFields : Type 0 where
    pub logger : String
    pub chart_renderer_factory : P.ChartRendererFactory
    pub rest_config : Option P.RestConfig
    pub client : Option P.Client
    pub gardener_clientset : Option P.Clientset
    pub chart_applier : Option P.ChartApplier

  pub record AddOptions : Type 0 where
    pub controller : P.ControllerOptions
    pub ignore_operation_annotation : Bool

  -- `network.AddArgs`
  pub record AddArgs : Type 0 where
    pub actuator : ActuatorFields
    pub controller_options : P.ControllerOptions
    pub predicates : P.Predicates
    pub type : String

  -- `healthcheck.DefaultAddArgs`
  pub record DefaultAddArgs : Type 0 where
    pub controller : P.ControllerOptions
    pub health_check_config : HealthCheckConfig

  -- The calls to the manager. `default_registration` is given the extension's type, its kind, the
  -- options and the health checks.
  pub data ManagerCall : Type 0 where
    new_manager : P.RestConfig → P.ManagerOptions → ManagerCall
    add_to_scheme : SchemeBuilder → ManagerCall
    add_network_controller : AddArgs → ManagerCall
    default_registration :
        String → String → DefaultAddArgs → List ConditionTypeToHealthCheck → ManagerCall
    start : ManagerCall

  -- What carries the calls out.
  pub record Host : Type 1 where
    pub State : Type 0
    pub perform : ManagerCall → State → Result (Unit {0}) × State

module _ {P : Platform} where
  unfoldable pub new_actuator : P.ChartRendererFactory → ActuatorFields P
  new_actuator factory = record {
    logger = log_id;
    chart_renderer_factory = factory;
    rest_config = none;
    client = none;
    gardener_clientset = none;
    chart_applier = none;
  }

  unfoldable pub inject_client : P.Client → Action (ActuatorFields P) (Unit {0})
  inject_client client a = (ok tt, record a { client = some client })

  -- What is left in the fields by a clientset, or by the error in its place.
  abbrev pub inject_clientset : Result P.Clientset → Action (ActuatorFields P) (Unit {0})
  inject_clientset (ok clientset) a = (
    ok tt,
    record a {
      gardener_clientset = some clientset;
      chart_applier = some (P.chart_applier clientset);
    },
  )
  inject_clientset (err e) a =
      (err (wrap "could not create Gardener client" e), record a { gardener_clientset = none })
  inject_clientset (panic e) a = (panic e, a)

  unfoldable pub inject_config : P.RestConfig → Action (ActuatorFields P) (Unit {0})
  inject_config config a =
      inject_clientset (P.new_with_config config) (record a { rest_config = some config })

  -- `DefaultAddOptions` and the health check's `AddOptions`, as they are at the start.
  abbrev pub default_add_options : AddOptions P
  default_add_options = record {
    controller = P.zero_controller_options;
    ignore_operation_annotation = false;
  }

  abbrev pub health_check_add_options : DefaultAddArgs P
  health_check_add_options = record {
    controller = P.zero_controller_options;
    health_check_config = record { sync_period = default_sync_period };
  }

abbrev pub health_checks : List ConditionTypeToHealthCheck
health_checks =
    record {
      condition_type = "SystemComponentsHealthy";
      managed_resource = calico_config_secret_name;
    }
    ∷ []

module _ {P : Platform} (H : Host P) where
  unfoldable pub add_to_manager_with_options : AddOptions P → Action H.State (Unit {0})
  add_to_manager_with_options opts = do
    H.perform (add_to_scheme resource_manager_scheme)
    H.perform (
        add_network_controller (record {
          actuator = new_actuator P.new_chart_renderer_for_shoot;
          controller_options = opts.controller;
          predicates = P.default_predicates opts.ignore_operation_annotation;
          type = calico_type;
        }))

  unfoldable pub register_health_checks : DefaultAddArgs P → Action H.State (Unit {0})
  register_health_checks opts =
      H.perform (default_registration calico_type "Network" opts health_checks)

  -- `AddToManager` of both packages, with the package's variable as it is then.
  unfoldable pub add_to_manager : AddOptions P → Action H.State (Unit {0})
  add_to_manager variable = add_to_manager_with_options variable

  unfoldable pub add_health_check_to_manager : DefaultAddArgs P → Action H.State (Unit {0})
  add_health_check_to_manager variable = register_health_checks variable
