-- ===== src/Api/Conversion.antt =====
-- pkg/apis/calico/v1alpha1/zz_generated.conversion.go: conversions between the structs of version
-- v1alpha1 and the internal ones, which have one layout. A conversion is given `*in` and what
-- `*out` holds before, and returns what it leaves in `*out`; `(*T)(unsafe.Pointer(p))` is the same
-- pointer. `Convert_…` returns the error of `autoConvert_…`, which is nil.
pub mod Shared
use gardener_extension_netwo.Prelude.Result.{Result, ok}
use gardener_extension_netwo.Api.Memory
use gardener_extension_netwo.Api.Internal.Memory.{
  IpamStruct, Ipv4Struct, TyphaStruct, NetworkConfigStruct, NetworkStatusStruct,
}

unfoldable pub auto_convert_v1alpha1_ipam_to_calico_ipam :
    Memory.IpamStruct → IpamStruct → IpamStruct
auto_convert_v1alpha1_ipam_to_calico_ipam source out = record out {
  ipam_type = source.ipam_type;
  cidr = source.cidr;
}

unfoldable pub convert_v1alpha1_ipam_to_calico_ipam :
    Memory.IpamStruct → IpamStruct → Result IpamStruct
convert_v1alpha1_ipam_to_calico_ipam source out =
    ok (auto_convert_v1alpha1_ipam_to_calico_ipam source out)

unfoldable pub auto_convert_calico_ipam_to_v1alpha1_ipam :
    IpamStruct → Memory.IpamStruct → Memory.IpamStruct
auto_convert_calico_ipam_to_v1alpha1_ipam source out = record out {
  ipam_type = source.ipam_type;
  cidr = source.cidr;
}

unfoldable pub convert_calico_ipam_to_v1alpha1_ipam :
    IpamStruct → Memory.IpamStruct → Result Memory.IpamStruct
convert_calico_ipam_to_v1alpha1_ipam source out =
    ok (auto_convert_calico_ipam_to_v1alpha1_ipam source out)

unfoldable pub auto_convert_v1alpha1_ipv4_to_calico_ipv4 :
    Memory.Ipv4Struct → Ipv4Struct → Ipv4Struct
auto_convert_v1alpha1_ipv4_to_calico_ipv4 source out = record out {
  pool = source.pool;
  mode = source.mode;
  auto_detection_method = source.auto_detection_method;
}

unfoldable pub convert_v1alpha1_ipv4_to_calico_ipv4 :
    Memory.Ipv4Struct → Ipv4Struct → Result Ipv4Struct
convert_v1alpha1_ipv4_to_calico_ipv4 source out =
    ok (auto_convert_v1alpha1_ipv4_to_calico_ipv4 source out)

unfoldable pub auto_convert_calico_ipv4_to_v1alpha1_ipv4 :
    Ipv4Struct → Memory.Ipv4Struct → Memory.Ipv4Struct
auto_convert_calico_ipv4_to_v1alpha1_ipv4 source out = record out {
  pool = source.pool;
  mode = source.mode;
  auto_detection_method = source.auto_detection_method;
}

unfoldable pub convert_calico_ipv4_to_v1alpha1_ipv4 :
    Ipv4Struct → Memory.Ipv4Struct → Result Memory.Ipv4Struct
convert_calico_ipv4_to_v1alpha1_ipv4 source out =
    ok (auto_convert_calico_ipv4_to_v1alpha1_ipv4 source out)

-- The type meta is left to the caller.
unfoldable pub auto_convert_v1alpha1_network_config_to_calico_network_config :
    Memory.NetworkConfigStruct → NetworkConfigStruct → NetworkConfigStruct
auto_convert_v1alpha1_network_config_to_calico_network_config source out = record out {
  backend = source.backend;
  ipam = source.ipam;
  ipv4 = source.ipv4;
  typha = source.typha;
  veth_mtu = source.veth_mtu;
  ipip = source.ipip;
  ip_auto_detection_method = source.ip_auto_detection_method;
}

unfoldable pub convert_v1alpha1_network_config_to_calico_network_config :
    Memory.NetworkConfigStruct → NetworkConfigStruct → Result NetworkConfigStruct
convert_v1alpha1_network_config_to_calico_network_config source out =
    ok (auto_convert_v1alpha1_network_config_to_calico_network_config source out)

unfoldable pub auto_convert_calico_network_config_to_v1alpha1_network_config :
    NetworkConfigStruct → Memory.NetworkConfigStruct → Memory.NetworkConfigStruct
auto_convert_calico_network_config_to_v1alpha1_network_config source out = record out {
  backend = source.backend;
  ipam = source.ipam;
  ipv4 = source.ipv4;
  typha = source.typha;
  veth_mtu = source.veth_mtu;
  ipip = source.ipip;
  ip_auto_detection_method = source.ip_auto_detection_method;
}

unfoldable pub convert_calico_network_config_to_v1alpha1_network_config :
    NetworkConfigStruct → Memory.NetworkConfigStruct → Result Memory.NetworkConfigStruct
convert_calico_network_config_to_v1alpha1_network_config source out =
    ok (auto_convert_calico_network_config_to_v1alpha1_network_config source out)

unfoldable pub auto_convert_v1alpha1_network_status_to_calico_network_status :
    Memory.NetworkStatusStruct → NetworkStatusStruct → NetworkStatusStruct
auto_convert_v1alpha1_network_status_to_calico_network_status source out = out

unfoldable pub convert_v1alpha1_network_status_to_calico_network_status :
    Memory.NetworkStatusStruct → NetworkStatusStruct → Result NetworkStatusStruct
convert_v1alpha1_network_status_to_calico_network_status source out =
    ok (auto_convert_v1alpha1_network_status_to_calico_network_status source out)

unfoldable pub auto_convert_calico_network_status_to_v1alpha1_network_status :
    NetworkStatusStruct → Memory.NetworkStatusStruct → Memory.NetworkStatusStruct
auto_convert_calico_network_status_to_v1alpha1_network_status source out = out

unfoldable pub convert_calico_network_status_to_v1alpha1_network_status :
    NetworkStatusStruct → Memory.NetworkStatusStruct → Result Memory.NetworkStatusStruct
convert_calico_network_status_to_v1alpha1_network_status source out =
    ok (auto_convert_calico_network_status_to_v1alpha1_network_status source out)

unfoldable pub auto_convert_v1alpha1_typha_to_calico_typha :
    Memory.TyphaStruct → TyphaStruct → TyphaStruct
auto_convert_v1alpha1_typha_to_calico_typha source out = record out { enabled = source.enabled }

unfoldable pub convert_v1alpha1_typha_to_calico_typha :
    Memory.TyphaStruct → TyphaStruct → Result TyphaStruct
convert_v1alpha1_typha_to_calico_typha source out =
    ok (auto_convert_v1alpha1_typha_to_calico_typha source out)

unfoldable pub auto_convert_calico_typha_to_v1alpha1_typha :
    TyphaStruct → Memory.TyphaStruct → Memory.TyphaStruct
auto_convert_calico_typha_to_v1alpha1_typha source out = record out { enabled = source.enabled }

unfoldable pub convert_calico_typha_to_v1alpha1_typha :
    TyphaStruct → Memory.TyphaStruct → Result Memory.TyphaStruct
convert_calico_typha_to_v1alpha1_typha source out =
    ok (auto_convert_calico_typha_to_v1alpha1_typha source out)
