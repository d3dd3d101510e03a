-- ===== src/Command/Config.antt =====
-- pkg/cmd/config.go, pkg/apis/config/types.go and pkg/apis/config/loader/loader.go: the
-- configuration of the controllers, from a file.
pub mod Completed
pub mod Stored
use gardener_extension_netwo.Prelude.{
  ℕ, String, Option, none, some, List, [], ◌∷◌, ◌++◌, ◌==◌, if◌then◌else◌,
}
use gardener_extension_netwo.Prelude.Result.{Result, ok, err, panic, errorf, ◌>>=◌}
use gardener_extension_netwo.Gardener.{Bytes}
use gardener_extension_netwo.Api.Types.{TypeMeta}

-- `healthcheckconfig.HealthCheckConfig` of gardener; the period is in nanoseconds.
pub record HealthCheckConfig : Type 0 where
  pub sync_period : ℕ

-- `C` is the type of component-base's settings for client connections.
pub record ControllerConfiguration (C : Type 0) : Type 0 where
  pub type_meta : TypeMeta
  pub client_connection : Option C
  pub health_check_config : Option HealthCheckConfig

abbrev pub zero_configuration : {C : Type 0} → ControllerConfiguration C
zero_configuration = record {
  type_meta = record { kind = ""; api_version = "" };
  client_connection = none;
  health_check_config = none;
}

-- `ioutil.ReadFile`, and the codec of apimachinery: it is given the version and the kind of a document
-- that has none, and what it decodes is an object, which may be a `*config.ControllerConfiguration`.
pub record Loaders (C : Type 0) : Type 1 where
  pub Object : Type 0
  pub read_file : String → Result Bytes
  pub decode : Bytes → String → String → ControllerConfiguration C → Result Object
  pub as_controller_configuration : Object → Option (ControllerConfiguration C)

pub record Config (C : Type 0) : Type 0 where
  pub config : ControllerConfiguration C

pub record ConfigOptions (C : Type 0) : Type 0 where
  pub config_file_path : String
  pub config : Option (Config C)

-- A flag that `pflag` knows, with its default.
pub record Flag : Type 0 where
  pub name : String
  pub value : String
  pub usage : String

module _ {C : Type 0} where
  -- A type assertion, which panics where it does not hold.
  abbrev pub asserted : Option (ControllerConfiguration C) → Result (ControllerConfiguration C)
  asserted none = panic (errorf "interface conversion")
  asserted (some c) = ok c

  -- `StringVar` writes the default into the variable.
  unfoldable pub add_flags : ConfigOptions C → List Flag → ConfigOptions C × List Flag
  add_flags o flags = (
    record o { config_file_path = "" },
    flags
        ++ record {
          name = "config-file";
          value = "";
          usage = "path to the controller manager configuration file";
        }
          ∷ [],
  )

  unfoldable pub completed : ConfigOptions C → Option (Config C)
  completed o = o.config

  unfoldable pub apply : Config C → ControllerConfiguration C → ControllerConfiguration C
  apply c cfg = c.config

  unfoldable pub options : Config C → ControllerConfiguration C
  unfolding apply
  options c = apply c zero_configuration

  unfoldable pub apply_health_check_config : Config C → HealthCheckConfig → HealthCheckConfig
  apply_health_check_config c old = elim c.config.health_check_config [
    | none ↦ old
    | some given ↦ given
  ]

module _ {C : Type 0} (F : Loaders C) where
  unfoldable pub load : Bytes → Result (ControllerConfiguration C)
  load [] = ok zero_configuration
  load (b ∷ bytes) = do
    decoded ← F.decode (b ∷ bytes) "v1alpha1" "Config" zero_configuration
    asserted (F.as_controller_configuration decoded)

  unfoldable pub load_from_file : String → Result (ControllerConfiguration C)
  load_from_file name = do bytes ← F.read_file name; load bytes

  unfoldable pub build_config : ConfigOptions C → Result (ControllerConfiguration C)
  build_config o =
      if o.config_file_path == ""
      then err (errorf "config file path not set")
      else load_from_file o.config_file_path

  -- What `Complete` does with the result of `buildConfig`.
  abbrev pub completed_with :
      ConfigOptions C → Result (ControllerConfiguration C) → Result (Unit {0}) × ConfigOptions C
  completed_with o (ok c) = (ok tt, record o { config = some (record { config = c }) })
  completed_with o (err e) = (err e, o)
  completed_with o (panic e) = (panic e, o)

  unfoldable pub complete : ConfigOptions C → Result (Unit {0}) × ConfigOptions C
  complete o = completed_with o (build_config o)
