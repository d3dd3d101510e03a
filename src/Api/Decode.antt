-- ===== src/Api/Decode.antt =====
-- pkg/apis/calico/v1alpha1/helper/decode.go. The decoder is apimachinery's: it is given the bytes
-- and returns what it decodes into an empty `NetworkConfig`.
use gardener_extension_netwo.Prelude.{none, some}
use gardener_extension_netwo.Prelude.Result.{Result, ok, err, errorf, ◌>>=◌}
use gardener_extension_netwo.Gardener.{Bytes, Network}
use gardener_extension_netwo.Api.Types.{NetworkConfig}

unfoldable pub calico_network_config_from_network_resource :
    (Bytes → Result NetworkConfig) → Network → Result NetworkConfig
calico_network_config_from_network_resource decode network =
    let missing : Result NetworkConfig =
      err (errorf "provider config is not set on the network resource") in
    elim network.provider_config [
      | none ↦ missing
      | some extension ↦ elim extension.raw [
        | none ↦ missing
        | some raw ↦ do config ← decode raw; ok config
      ]
    ]
