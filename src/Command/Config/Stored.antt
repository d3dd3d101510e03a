-- ===== src/Command/Config/Stored.antt =====
-- pkg/apis/config/zz_generated.deepcopy.go: the internal configuration as a struct of pointers.
pub mod Fresh
pub mod V1alpha1
pub mod Conversion
pub mod Versions
use gardener_extension_netwo.Prelude.{Option, none, some}
use gardener_extension_netwo.Store.{Ptr, Command, pure, ◌>>=◌, ◌>>◌, store, load, copy_field}
use gardener_extension_netwo.Api.Types.{TypeMeta}
use gardener_extension_netwo.Api.DeepCopy.{zero_type_meta}
use gardener_extension_netwo.Command.Config.{HealthCheckConfig}

-- `ControllerConfiguration` as it lies in a memory.
pub record ConfigurationStruct : Type 0 where
  pub type_meta : TypeMeta
  pub client_connection : Option Ptr
  pub health_check_config : Option Ptr

-- `C` is the type of component-base's settings for client connections, which hold no pointer.
pub data Cell (C : Type 0) : Type 0 where
  client_connection : C → Cell C
  health_check_config : HealthCheckConfig → Cell C
  configuration : ConfigurationStruct → Cell C

module _ {C : Type 0} where
  abbrev pub client_connection_in : Cell C → Option C
  client_connection_in (client_connection c) = some c
  client_connection_in _ = none

  abbrev pub health_check_config_in : Cell C → Option HealthCheckConfig
  health_check_config_in (health_check_config h) = some h
  health_check_config_in _ = none

  abbrev pub configuration_in : Cell C → Option ConfigurationStruct
  configuration_in (configuration s) = some s
  configuration_in _ = none

  abbrev pub zero_health_check_config : Cell C
  zero_health_check_config = health_check_config (record { sync_period = 0 })

  abbrev pub zero_configuration_struct : Cell C
  zero_configuration_struct =
      configuration (record {
        type_meta = zero_type_meta;
        client_connection = none;
        health_check_config = none;
      })

-- `zero` is the zero value of `C`.
module _ {C : Type 0} (zero : C) where
  unfoldable pub copy_client_connection : Ptr → Ptr → Command (Cell C) (Unit {0})
  copy_client_connection p q = do c ← load client_connection_in p; store q (client_connection c)

  unfoldable pub copy_health_check_config : Ptr → Ptr → Command (Cell C) (Unit {0})
  copy_health_check_config p q = do
    h ← load health_check_config_in p
    store q (health_check_config h)

  unfoldable pub configuration_deep_copy_into :
      ConfigurationStruct → Command (Cell C) ConfigurationStruct
  configuration_deep_copy_into s = do
    c ← copy_field (client_connection zero) copy_client_connection s.client_connection
    h ← copy_field zero_health_check_config copy_health_check_config s.health_check_config
    pure (record { type_meta = s.type_meta; client_connection = c; health_check_config = h })

  unfoldable pub copy_configuration : Ptr → Ptr → Command (Cell C) (Unit {0})
  copy_configuration p q = do
    s ← load configuration_in p
    out ← configuration_deep_copy_into s
    store q (configuration out)

  unfoldable pub configuration_deep_copy : Option Ptr → Command (Cell C) (Option Ptr)
  configuration_deep_copy = copy_field zero_configuration_struct copy_configuration

  unfoldable pub configuration_deep_copy_object : Option Ptr → Command (Cell C) (Option Ptr)
  configuration_deep_copy_object p = do c ← configuration_deep_copy p; pure c
