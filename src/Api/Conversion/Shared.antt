-- ===== src/Api/Conversion/Shared.antt =====
-- Conversions of a `NetworkConfig`: there and back, what the converted struct stands for, and its
-- deep copy.
use mathlib.Core.Option
use gardener_extension_netwo.Prelude.{◌≡◌, refl}
use gardener_extension_netwo.Prelude.Result.{ok, ◌>>=◌}
use gardener_extension_netwo.Api.Memory
use gardener_extension_netwo.Api.Memory.{Memory}
use gardener_extension_netwo.Api.Memory.Readings
use gardener_extension_netwo.Api.DeepCopy
use gardener_extension_netwo.Api.Internal.Memory.{NetworkConfigStruct}
use gardener_extension_netwo.Api.Internal.Memory.Readings.{
  read_network_config, network_config_value, read_network_config-internal,
}
use gardener_extension_netwo.Api.Internal.DeepCopy.{network_config_deep_copy_into}
use gardener_extension_netwo.Api.Internal.DeepCopy.Same.{
  cast_out, network_config_deep_copy_into-internal,
}
use gardener_extension_netwo.Api.Conversion.{
  auto_convert_v1alpha1_network_config_to_calico_network_config,
  auto_convert_calico_network_config_to_v1alpha1_network_config,
  convert_v1alpha1_network_config_to_calico_network_config,
  convert_calico_network_config_to_v1alpha1_network_config,
}

-- There and back, through structs with whatever in them, ends well and is the same struct of the same
-- pointers, but for the type meta: that of the last struct stays.
pub convert_network_config-back :
    (source out : Memory.NetworkConfigStruct) (mid : NetworkConfigStruct)
    → (convert_v1alpha1_network_config_to_calico_network_config source mid >>= λ x.
        convert_calico_network_config_to_v1alpha1_network_config x out)
      ≡ ok (record source { type_meta = out.type_meta })
unfolding convert_calico_network_config_to_v1alpha1_network_config
    convert_v1alpha1_network_config_to_calico_network_config
    auto_convert_calico_network_config_to_v1alpha1_network_config
    auto_convert_v1alpha1_network_config_to_calico_network_config
convert_network_config-back source out mid = refl

-- The conversion ends well. In every memory, so after any write to the shared cells too, the
-- converted struct stands for the value of the struct it came from, at the internal types and with
-- a type meta of its own; or for none if that has none.
pub convert_network_config-read :
    (source : Memory.NetworkConfigStruct) (out : NetworkConfigStruct) (m : Memory)
    → (x : NetworkConfigStruct) × (convert_v1alpha1_network_config_to_calico_network_config source
          out
        ≡ ok x)
      × (read_network_config x m
          ≡ Option.map (network_config_value out.type_meta) (Readings.read_network_config source m))
unfolding convert_v1alpha1_network_config_to_calico_network_config
    auto_convert_v1alpha1_network_config_to_calico_network_config
convert_network_config-read source out m =
    (_, refl, read_network_config-internal (λ _. out.type_meta) source m)

-- A deep copy of the converted struct is the conversion of a deep copy, in every memory; where the one
-- is a fault, so is the other.
pub convert_network_config-deep_copy_into :
    (source : Memory.NetworkConfigStruct) (out : NetworkConfigStruct) (m : Memory)
    → network_config_deep_copy_into
        (auto_convert_v1alpha1_network_config_to_calico_network_config source out)
        m
      ≡ cast_out
          (λ x. auto_convert_v1alpha1_network_config_to_calico_network_config x out)
          (DeepCopy.network_config_deep_copy_into source m)
unfolding auto_convert_v1alpha1_network_config_to_calico_network_config
convert_network_config-deep_copy_into source out m =
    network_config_deep_copy_into-internal (λ _. out.type_meta) source m
