-- ===== src/Command/Config/Stored/Conversion.antt =====
-- pkg/apis/config/v1alpha1/zz_generated.conversion.go. As in Api.Conversion, a conversion is given what
-- `*out` holds and returns what it leaves there; the pointers are the same in both versions, and
-- the type meta is left to the caller.
use gardener_extension_netwo.Prelude.Result.{Result, ok}
use gardener_extension_netwo.Command.Config.Stored.{ConfigurationStruct}
use gardener_extension_netwo.Command.Config.Stored.V1alpha1

unfoldable pub auto_convert_v1alpha1_configuration_to_config :
    V1alpha1.ConfigurationStruct → ConfigurationStruct → ConfigurationStruct
auto_convert_v1alpha1_configuration_to_config source out = record out {
  client_connection = source.client_connection;
  health_check_config = source.health_check_config;
}

unfoldable pub convert_v1alpha1_configuration_to_config :
    V1alpha1.ConfigurationStruct → ConfigurationStruct → Result ConfigurationStruct
convert_v1alpha1_configuration_to_config source out =
    ok (auto_convert_v1alpha1_configuration_to_config source out)

unfoldable pub auto_convert_config_configuration_to_v1alpha1 :
    ConfigurationStruct → V1alpha1.ConfigurationStruct → V1alpha1.ConfigurationStruct
auto_convert_config_configuration_to_v1alpha1 source out = record out {
  client_connection = source.client_connection;
  health_check_config = source.health_check_config;
}

unfoldable pub convert_config_configuration_to_v1alpha1 :
    ConfigurationStruct → V1alpha1.ConfigurationStruct → Result V1alpha1.ConfigurationStruct
convert_config_configuration_to_v1alpha1 source out =
    ok (auto_convert_config_configuration_to_v1alpha1 source out)
