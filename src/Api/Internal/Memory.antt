-- ===== src/Api/Internal/Memory.antt =====
-- The structs of pkg/apis/calico/types_network.go as they lie in a memory. They have the layout of the
-- structs of version v1alpha1, so a cell can be read at the types of either package; the
-- conversions by `unsafe.Pointer` rely on this.
pub mod Readings
use gardener_extension_netwo.Prelude.{String, Bool, Option, none, some}
use gardener_extension_netwo.Api.Types.{TypeMeta}
use gardener_extension_netwo.Api.Memory
use gardener_extension_netwo.Api.Memory.{
  Ptr, Cell, ipam, ipv4, typha, network_config, network_status,
}

pub record IpamStruct : Type 0 where
  pub ipam_type : String
  pub cidr : Option Ptr

pub record Ipv4Struct : Type 0 where
  pub pool : Option Ptr
  pub mode : Option Ptr
  pub auto_detection_method : Option Ptr

pub record TyphaStruct : Type 0 where
  pub enabled : Bool

pub record NetworkConfigStruct : Type 0 where
  pub type_meta : TypeMeta
  pub backend : Option Ptr
  pub ipam : Option Ptr
  pub ipv4 : Option Ptr
  pub typha : Option Ptr
  pub veth_mtu : Option Ptr
  pub ipip : Option Ptr
  pub ip_auto_detection_method : Option Ptr

pub record NetworkStatusStruct : Type 0 where
  pub type_meta : TypeMeta

-- The same bits at the type of this package.
abbrev pub internal_ipam : Memory.IpamStruct → IpamStruct
internal_ipam s = record { ipam_type = s.ipam_type; cidr = s.cidr }

abbrev pub internal_ipv4 : Memory.Ipv4Struct → Ipv4Struct
internal_ipv4 s = record {
  pool = s.pool;
  mode = s.mode;
  auto_detection_method = s.auto_detection_method;
}

abbrev pub internal_typha : Memory.TyphaStruct → TyphaStruct
internal_typha s = record { enabled = s.enabled }

abbrev pub internal_network_config : Memory.NetworkConfigStruct → NetworkConfigStruct
internal_network_config s = record {
  type_meta = s.type_meta;
  backend = s.backend;
  ipam = s.ipam;
  ipv4 = s.ipv4;
  typha = s.typha;
  veth_mtu = s.veth_mtu;
  ipip = s.ipip;
  ip_auto_detection_method = s.ip_auto_detection_method;
}

abbrev pub internal_network_status : Memory.NetworkStatusStruct → NetworkStatusStruct
internal_network_status s = record { type_meta = s.type_meta }

-- The cell that holds a struct.
abbrev pub ipam_cell : IpamStruct → Cell
ipam_cell s = ipam (record { ipam_type = s.ipam_type; cidr = s.cidr })

abbrev pub ipv4_cell : Ipv4Struct → Cell
ipv4_cell s =
    ipv4 (record { pool = s.pool; mode = s.mode; auto_detection_method = s.auto_detection_method })

abbrev pub typha_cell : TyphaStruct → Cell
typha_cell s = typha (record { enabled = s.enabled })

abbrev pub network_config_cell : NetworkConfigStruct → Cell
network_config_cell s = network_config (record {
  type_meta = s.type_meta;
  backend = s.backend;
  ipam = s.ipam;
  ipv4 = s.ipv4;
  typha = s.typha;
  veth_mtu = s.veth_mtu;
  ipip = s.ipip;
  ip_auto_detection_method = s.ip_auto_detection_method;
})

abbrev pub network_status_cell : NetworkStatusStruct → Cell
network_status_cell s = network_status (record { type_meta = s.type_meta })

-- `*p` at each type.
abbrev pub ipam_in : Cell → Option IpamStruct
ipam_in (ipam s) = some (internal_ipam s)
ipam_in _ = none

abbrev pub ipv4_in : Cell → Option Ipv4Struct
ipv4_in (ipv4 s) = some (internal_ipv4 s)
ipv4_in _ = none

abbrev pub typha_in : Cell → Option TyphaStruct
typha_in (typha s) = some (internal_typha s)
typha_in _ = none

abbrev pub network_config_in : Cell → Option NetworkConfigStruct
network_config_in (network_config s) = some (internal_network_config s)
network_config_in _ = none

abbrev pub network_status_in : Cell → Option NetworkStatusStruct
network_status_in (network_status s) = some (internal_network_status s)
network_status_in _ = none
