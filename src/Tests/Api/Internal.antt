-- ===== src/Tests/Api/Internal.antt =====
-- The internal types: conversions, and deep copies in the same memory.
use gardener_extension_netwo.Prelude.{◌≡◌, refl, none, some}
use gardener_extension_netwo.Prelude.Result.{ok, ◌>>=◌}
use gardener_extension_netwo.Actuator.Status.{status_type_meta}
use gardener_extension_netwo.Store.Copies.{IsCopy}
use gardener_extension_netwo.Api.DeepCopy
use gardener_extension_netwo.Api.DeepCopy.{zero_network_config, zero_type_meta}
use gardener_extension_netwo.Api.Internal.Types.{NetworkConfig}
use gardener_extension_netwo.Api.Internal.Memory.{NetworkConfigStruct}
use gardener_extension_netwo.Api.Internal.Memory.Readings.{read_network_config}
use gardener_extension_netwo.Api.Internal.DeepCopy.{
  zero_network_config as zero_internal_config, network_config_deep_copy_into,
  network_config_deep_copy, network_status_deep_copy,
}
use gardener_extension_netwo.Api.Internal.DeepCopy.Same.{cast_out}
use gardener_extension_netwo.Api.Internal.DeepCopy.Fresh.{
  network_config_at, network_status_at, internal_network_config_deep_copy-IsCopy,
  internal_network_status_deep_copy-IsCopy,
}
use gardener_extension_netwo.Api.Conversion.{
  auto_convert_v1alpha1_network_config_to_calico_network_config,
  convert_v1alpha1_network_config_to_calico_network_config,
  convert_calico_network_config_to_v1alpha1_network_config,
}
use gardener_extension_netwo.Api.Conversion.Shared.{
  convert_network_config-back, convert_network_config-read, convert_network_config-deep_copy_into,
}
use gardener_extension_netwo.Tests.Api.{config_struct, memory, status_memory}

abbrev zero_internal : NetworkConfigStruct
zero_internal = zero_internal_config

abbrev internal_config : NetworkConfig
internal_config = record {
  type_meta = zero_type_meta;
  backend = some "none";
  ipam = some (record { ipam_type = "host-local"; cidr = some "10.0.0.0/8" });
  ipv4 = none;
  typha = none;
  veth_mtu = none;
  ipip = some "none";
  ip_auto_detection_method = none;
}

convert_network_config-back_example :
    (convert_v1alpha1_network_config_to_calico_network_config config_struct zero_internal >>= λ x.
    convert_calico_network_config_to_v1alpha1_network_config x zero_network_config)
    ≡ ok config_struct
convert_network_config-back_example =
    convert_network_config-back config_struct zero_network_config zero_internal

convert_network_config-read_example :
    (x : NetworkConfigStruct) × (convert_v1alpha1_network_config_to_calico_network_config
        config_struct zero_internal
      ≡ ok x)
    × (read_network_config x memory ≡ some internal_config)
convert_network_config-read_example = convert_network_config-read config_struct zero_internal memory

convert_network_config-deep_copy_into_example :
    network_config_deep_copy_into
      (auto_convert_v1alpha1_network_config_to_calico_network_config config_struct zero_internal)
      memory
    ≡ cast_out
        (λ x. auto_convert_v1alpha1_network_config_to_calico_network_config x zero_internal)
        (DeepCopy.network_config_deep_copy_into config_struct memory)
convert_network_config-deep_copy_into_example =
    convert_network_config-deep_copy_into config_struct zero_internal memory

-- The same memory, at the internal types.
internal_network_config_deep_copy-IsCopy_example :
    IsCopy 4 memory network_config_at
      (some internal_config)
      (network_config_deep_copy (some 3) memory)
internal_network_config_deep_copy-IsCopy_example =
    internal_network_config_deep_copy-IsCopy memory (some 3) (some internal_config) refl

internal_status_copy_lem :
    IsCopy 1 status_memory network_status_at
      (some (record { type_meta = status_type_meta }))
      (network_status_deep_copy (some 0) status_memory)
internal_status_copy_lem = internal_network_status_deep_copy-IsCopy status_memory (some 0) _ refl
