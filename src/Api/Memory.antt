-- ===== src/Api/Memory.antt =====
-- Pointers to the API types: a memory of cells, and the structs of
-- pkg/apis/calico/v1alpha1/types_network.go as they lie in it. The structs of pkg/apis/calico have
-- the same layout, which the conversions by `unsafe.Pointer` rely on.
pub mod Readings
use gardener_extension_netwo.Prelude.{
  ℕ, String, Bool, Option, none, some, List, [], ◌∷◌, ◌++◌, length, get_elem?, set, and_then,
}
pub use gardener_extension_netwo.Store.{
  Ptr, pure, ◌>>=◌, ◌>>◌, new, store, at_ptr, load, copy_field,
}
use gardener_extension_netwo.Store.{Command}
use gardener_extension_netwo.Api.Types
use gardener_extension_netwo.Api.Types.{TypeMeta}

pub record IpamStruct : Type 0 where
  pub ipam_type : String
  pub cidr : Option Ptr

pub record Ipv4Struct : Type 0 where
  pub pool : Option Ptr
  pub mode : Option Ptr
  pub auto_detection_method : Option Ptr

pub record TyphaStruct : Type 0 where
  pub enabled : Bool

pub record NetworkConfigStruct : Type 0 where
  pub type_meta : TypeMeta
  pub backend : Option Ptr
  pub ipam : Option Ptr
  pub ipv4 : Option Ptr
  pub typha : Option Ptr
  pub veth_mtu : Option Ptr
  pub ipip : Option Ptr
  pub ip_auto_detection_method : Option Ptr

pub record NetworkStatusStruct : Type 0 where
  pub type_meta : TypeMeta

-- `text` holds a `string` or one of the string types.
pub data Cell : Type 0 where
  text : String → Cell
  ipam : IpamStruct → Cell
  ipv4 : Ipv4Struct → Cell
  typha : TyphaStruct → Cell
  network_config : NetworkConfigStruct → Cell
  network_status : NetworkStatusStruct → Cell

abbrev pub Memory : Type 0
Memory = List Cell

-- The commands on such a memory.
abbrev pub Cmd : Type 0 → Type 0
Cmd = Command Cell

-- `*p` at each type.
abbrev pub text_in : Cell → Option String
text_in (text s) = some s
text_in _ = none

abbrev pub ipam_in : Cell → Option IpamStruct
ipam_in (ipam s) = some s
ipam_in _ = none

abbrev pub ipv4_in : Cell → Option Ipv4Struct
ipv4_in (ipv4 s) = some s
ipv4_in _ = none

abbrev pub typha_in : Cell → Option TyphaStruct
typha_in (typha s) = some s
typha_in _ = none

abbrev pub network_config_in : Cell → Option NetworkConfigStruct
network_config_in (network_config s) = some s
network_config_in _ = none

abbrev pub network_status_in : Cell → Option NetworkStatusStruct
network_status_in (network_status s) = some s
network_status_in _ = none
