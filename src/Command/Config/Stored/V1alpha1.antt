-- ===== src/Command/Config/Stored/V1alpha1.antt =====
-- pkg/apis/config/v1alpha1/types.go and zz_generated.deepcopy.go: the configuration of version v1alpha1
-- as a struct of pointers. It has the layout of the internal one, and so have the structs that it
-- points to, whose bits a cell holds.
use gardener_extension_netwo.Prelude.{Option, none, some}
use gardener_extension_netwo.Store.{Ptr, Command, pure, ◌>>=◌, store, load, copy_field}
use gardener_extension_netwo.Api.Types.{TypeMeta}
use gardener_extension_netwo.Api.DeepCopy.{zero_type_meta}
use gardener_extension_netwo.Command.Config.Stored
use gardener_extension_netwo.Command.Config.Stored.{
  Cell, client_connection, health_check_config, configuration, zero_health_check_config,
  copy_client_connection, copy_health_check_config,
}

pub record ConfigurationStruct : Type 0 where
  pub type_meta : TypeMeta
  pub client_connection : Option Ptr
  pub health_check_config : Option Ptr

-- The bits of an internal struct at the type of this version.
abbrev pub v1alpha1_configuration : Stored.ConfigurationStruct → ConfigurationStruct
v1alpha1_configuration s = record {
  type_meta = s.type_meta;
  client_connection = s.client_connection;
  health_check_config = s.health_check_config;
}

abbrev pub zero_configuration_struct : ConfigurationStruct
zero_configuration_struct = record {
  type_meta = zero_type_meta;
  client_connection = none;
  health_check_config = none;
}

module _ {C : Type 0} where
  abbrev pub configuration_cell : ConfigurationStruct → Cell C
  configuration_cell s = configuration (record {
    type_meta = s.type_meta;
    client_connection = s.client_connection;
    health_check_config = s.health_check_config;
  })

  abbrev pub configuration_in : Cell C → Option ConfigurationStruct
  configuration_in (configuration s) = some (v1alpha1_configuration s)
  configuration_in _ = none

module _ {C : Type 0} (zero : C) where
  unfoldable pub configuration_deep_copy_into :
      ConfigurationStruct → Command (Cell C) ConfigurationStruct
  configuration_deep_copy_into s = do
    c ← copy_field (client_connection zero) (copy_client_connection zero) s.client_connection
    h ← copy_field zero_health_check_config (copy_health_check_config zero) s.health_check_config
    pure (record { type_meta = s.type_meta; client_connection = c; health_check_config = h })

  unfoldable pub copy_configuration : Ptr → Ptr → Command (Cell C) (Unit {0})
  copy_configuration p q = do
    s ← load configuration_in p
    out ← configuration_deep_copy_into s
    store q (configuration_cell out)

  unfoldable pub configuration_deep_copy : Option Ptr → Command (Cell C) (Option Ptr)
  configuration_deep_copy =
      copy_field (configuration_cell zero_configuration_struct) copy_configuration

  unfoldable pub configuration_deep_copy_object : Option Ptr → Command (Cell C) (Option Ptr)
  configuration_deep_copy_object p = do c ← configuration_deep_copy p; pure c
