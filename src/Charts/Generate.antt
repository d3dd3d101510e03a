-- ===== src/Charts/Generate.antt =====
-- `generateChartValues` of pkg/charts/utils.go, one function for each block of its body. A block
-- that can return early has a result.
pub mod Expected
pub mod Reference
pub mod Deprecated
pub mod Ranges
pub mod Untyped
use gardener_extension_netwo.Prelude.{
  String, ◌<>◌, Bool, false, ◌||◌, ◌&&◌, Option, none, some, ◌==◌, if◌then◌else◌, get_or, is_some,
}
use gardener_extension_netwo.Prelude.Result.{Result, ok, err, errorf, ◌>>=◌}
use gardener_extension_netwo.Api.Types.{
  Backend, Ipv4Pool, Ipv4PoolMode, Ipv4, Ipam, Typha, NetworkConfig, bird, vxlan, backend_none,
  pool_ipip, pool_vxlan, always, never, off, cross_subnet,
}
use gardener_extension_netwo.Charts.Config.{CalicoConfig, host_local, new_calico_config}

-- The values that the first switch accepts.
abbrev pub backend_supported : Backend → Bool
backend_supported b = b == bird || b == vxlan || b == backend_none

abbrev pub pool_supported : Ipv4Pool → Bool
pool_supported p = p == pool_ipip || p == pool_vxlan

abbrev pub mode_supported : Ipv4PoolMode → Bool
mode_supported m = m == always || m == never || m == off || m == cross_subnet

pub apply_backend : Option Backend → CalicoConfig → Result CalicoConfig
apply_backend none c = ok c
apply_backend (some b) c =
    if backend_supported b
    then ok (record c { backend = b })
    else err (errorf ("unsupported value for backend: " <> b))

-- `if c.Backend == calicov1alpha1.None { … }`
pub disable_without_backend : CalicoConfig → CalicoConfig
disable_without_backend c =
    if c.backend == backend_none
    then record c {
      kube_controllers = record { enabled = false };
      felix = record { ipinip = record { enabled = false } };
      ipv4 = record (c.ipv4) { mode = never };
    }
    else c

pub apply_ipam : Option Ipam → CalicoConfig → CalicoConfig
apply_ipam none c = c
apply_ipam (some i) c =
    let typed = if i.ipam_type == "" then c.ipam else record (c.ipam) { ipam_type = i.ipam_type } in
    record c {
      ipam =
          if i.ipam_type == host_local && is_some i.cidr
          then record typed { subnet = get_or i.cidr typed.subnet }
          else typed;
    }

pub apply_pool : Option Ipv4Pool → CalicoConfig → Result CalicoConfig
apply_pool none c = ok c
apply_pool (some p) c =
    if pool_supported p
    then ok (record c { ipv4 = record (c.ipv4) { pool = p } })
    else err (errorf ("unsupported value for ipv4 pool: " <> p))

-- The switch over the pool modes stands in the source twice; `prefix` begins its error.
pub apply_mode : String → Option Ipv4PoolMode → CalicoConfig → Result CalicoConfig
apply_mode prefix none c = ok c
apply_mode prefix (some m) c =
    if mode_supported m
    then ok (record c { ipv4 = record (c.ipv4) { mode = m } })
    else err (errorf (prefix <> m))

pub apply_auto_detection : Option String → CalicoConfig → CalicoConfig
apply_auto_detection none c = c
apply_auto_detection (some a) c = record c {
  ipv4 = record (c.ipv4) { auto_detection_method = some a };
}

-- The settings of `ipv4` where it is given, and else the deprecated fields.
pub apply_ipv4 : Option Ipv4 → NetworkConfig → CalicoConfig → Result CalicoConfig
apply_ipv4 (some v) config c = do
  c ← apply_pool v.pool c
  c ← apply_mode "unsupported value for ipv4 mode: " v.mode c
  ok (apply_auto_detection v.auto_detection_method c)
apply_ipv4 none config c = do
  c ← apply_mode "unsupported value for ipip: " config.ipip c
  ok (apply_auto_detection config.ip_auto_detection_method c)

pub apply_typha : Option Typha → CalicoConfig → CalicoConfig
apply_typha none c = c
apply_typha (some t) c = record c { typha = record { enabled = t.enabled } }

pub apply_veth_mtu : Option String → CalicoConfig → CalicoConfig
apply_veth_mtu none c = c
apply_veth_mtu (some mtu) c = record c { veth_mtu = mtu }

-- The body behind the test for nil.
pub generate_from : NetworkConfig → CalicoConfig → Result CalicoConfig
generate_from config c = do
  c ← apply_backend config.backend c
  let c = apply_ipam config.ipam (disable_without_backend c)
  c ← apply_ipv4 config.ipv4 config c
  ok (apply_veth_mtu config.veth_mtu (apply_typha config.typha c))

unfoldable pub generate_chart_values : Option NetworkConfig → Result CalicoConfig
unfolding generate_from apply_backend disable_without_backend apply_ipam apply_pool apply_mode
    apply_auto_detection apply_ipv4 apply_typha apply_veth_mtu
generate_chart_values none = ok new_calico_config
generate_chart_values (some config) = generate_from config new_calico_config
