-- ===== src/Api/Internal/Types.antt =====
-- pkg/apis/calico/types_network.go: the internal version of the API types, with an `Option` for a
-- pointer.
use gardener_extension_netwo.Prelude.{String, Option, Bool}
use gardener_extension_netwo.Api.Types.{TypeMeta}

abbrev pub Backend : Type 0
Backend = String

abbrev pub bird : Backend
bird = "bird"

abbrev pub backend_none : Backend
backend_none = "none"

abbrev pub vxlan : Backend
vxlan = "vxlan"

abbrev pub Ipv4PoolMode : Type 0
Ipv4PoolMode = String

abbrev pub always : Ipv4PoolMode
always = "Always"

abbrev pub never : Ipv4PoolMode
never = "Never"

abbrev pub cross_subnet : Ipv4PoolMode
cross_subnet = "CrossSubnet"

abbrev pub off : Ipv4PoolMode
off = "Off"

abbrev pub Cidr : Type 0
Cidr = String

abbrev pub Ipv4Pool : Type 0
Ipv4Pool = String

abbrev pub pool_ipip : Ipv4Pool
pool_ipip = "ipip"

abbrev pub pool_vxlan : Ipv4Pool
pool_vxlan = "vxlan"

pub record Ipv4 : Type 0 where
  pub pool : Option Ipv4Pool
  pub mode : Option Ipv4PoolMode
  pub auto_detection_method : Option String

pub record Ipam : Type 0 where
  pub ipam_type : String
  pub cidr : Option Cidr

pub record Typha : Type 0 where
  pub enabled : Bool

pub record NetworkConfig : Type 0 where
  pub type_meta : TypeMeta
  pub backend : Option Backend
  pub ipam : Option Ipam
  pub ipv4 : Option Ipv4
  pub typha : Option Typha
  pub veth_mtu : Option String
  pub ipip : Option Ipv4PoolMode
  pub ip_auto_detection_method : Option String

pub record NetworkStatus : Type 0 where
  pub type_meta : TypeMeta
