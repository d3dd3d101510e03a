-- ===== src/Tests/Command/Stored.antt =====
-- Deep copies and conversions of a configuration in a small memory.
use gardener_extension_netwo.Prelude.{◌≡◌, refl, ℕ, List, none, some, [], ◌∷◌}
use gardener_extension_netwo.Prelude.Result.{ok}
use gardener_extension_netwo.Store.Copies.{IsCopy}
use gardener_extension_netwo.Api.DeepCopy.{zero_type_meta}
use gardener_extension_netwo.Command.Config.{ControllerConfiguration, zero_configuration}
use gardener_extension_netwo.Command.Config.Stored
use gardener_extension_netwo.Command.Config.Stored.{
  ConfigurationStruct, Cell, configuration_deep_copy,
}
use gardener_extension_netwo.Command.Config.Stored.Fresh.{
  configuration_at, read_configuration, configuration_deep_copy-IsCopy,
}
use gardener_extension_netwo.Command.Config.Stored.V1alpha1
use gardener_extension_netwo.Command.Config.Stored.V1alpha1.{v1alpha1_configuration}
use gardener_extension_netwo.Command.Config.Stored.Conversion.{
  convert_v1alpha1_configuration_to_config, convert_config_configuration_to_v1alpha1,
}
use gardener_extension_netwo.Command.Config.Stored.Versions
use gardener_extension_netwo.Command.Config.Stored.Versions.{
  v1alpha1_configuration_deep_copy-IsCopy, convert_configuration-read,
}

abbrev stored : ConfigurationStruct
stored = record {
  type_meta = zero_type_meta;
  client_connection = none;
  health_check_config = some 0;
}

abbrev cells : List (Cell ℕ)
cells = Stored.health_check_config (record { sync_period = 60 }) ∷ Stored.configuration stored ∷ []

abbrev stored_configuration : ControllerConfiguration ℕ
stored_configuration = record (zero_configuration {C = ℕ}) {
  health_check_config = some (record { sync_period = 60 });
}

configuration_deep_copy-IsCopy_example :
    IsCopy 2 cells configuration_at
      (some stored_configuration)
      (configuration_deep_copy 0 (some 1) cells)
configuration_deep_copy-IsCopy_example =
    configuration_deep_copy-IsCopy 0 cells (some 1) (some stored_configuration) refl

abbrev given : V1alpha1.ConfigurationStruct
given = v1alpha1_configuration stored

convert_configuration-read_example :
    (x : ConfigurationStruct) × (convert_v1alpha1_configuration_to_config given stored ≡ ok x)
    × (read_configuration x cells ≡ some stored_configuration)
    × (convert_config_configuration_to_v1alpha1 x given ≡ ok given)
convert_configuration-read_example = convert_configuration-read given given stored cells

v1alpha1_copy_lem :
    IsCopy 2 cells Versions.configuration_at
      (some stored_configuration)
      (V1alpha1.configuration_deep_copy 0 (some 1) cells)
v1alpha1_copy_lem =
    v1alpha1_configuration_deep_copy-IsCopy 0 cells (some 1) (some stored_configuration) refl
