-- ===== src/Charts/Config.antt =====
-- The typed chart configuration of pkg/charts/utils.go and its defaults.
use gardener_extension_netwo.Prelude.{String, Bool, true, Option, none}
use gardener_extension_netwo.Api.Types.{Backend, Ipv4Pool, Ipv4PoolMode, bird, pool_ipip, always}

abbrev pub host_local : String
host_local = "host-local"

abbrev pub use_pod_cidr : String
use_pod_cidr = "usePodCidr"

abbrev pub default_mtu : String
default_mtu = "1440"

pub record FelixIpinip : Type 0 where
  pub enabled : Bool

pub record Felix : Type 0 where
  pub ipinip : FelixIpinip

pub record Ipv4Values : Type 0 where
  pub pool : Ipv4Pool
  pub mode : Ipv4PoolMode
  pub auto_detection_method : Option String

pub record IpamValues : Type 0 where
  pub ipam_type : String
  pub subnet : String

pub record KubeControllers : Type 0 where
  pub enabled : Bool

pub record Monitoring : Type 0 where
  pub enabled : Bool
  pub typha_metrics_port : String
  pub felix_metrics_port : String

pub record TyphaValues : Type 0 where
  pub enabled : Bool

pub record CalicoConfig : Type 0 where
  pub backend : Backend
  pub felix : Felix
  pub ipv4 : Ipv4Values
  pub ipam : IpamValues
  pub typha : TyphaValues
  pub kube_controllers : KubeControllers
  pub veth_mtu : String
  pub monitoring : Monitoring

abbrev pub default_calico_config : CalicoConfig
default_calico_config = record {
  backend = bird;
  felix = record { ipinip = record { enabled = true } };
  ipv4 = record { pool = pool_ipip; mode = always; auto_detection_method = none };
  ipam = record { ipam_type = host_local; subnet = use_pod_cidr };
  typha = record { enabled = true };
  kube_controllers = record { enabled = true };
  veth_mtu = default_mtu;
  monitoring = record { enabled = true; typha_metrics_port = "9093"; felix_metrics_port = "9091" };
}

-- The struct is copied, so that what a caller changes leaves the defaults alone.
abbrev pub new_calico_config : CalicoConfig
new_calico_config = default_calico_config
