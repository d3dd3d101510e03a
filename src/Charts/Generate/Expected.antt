-- ===== src/Charts/Generate/Expected.antt =====
-- What `generateChartValues` is to compute, field by field and with no intermediate state.
use gardener_extension_netwo.Prelude.{
  String, ◌<>◌, Bool, true, not, Option, none, some, ◌==◌, if◌then◌else◌, get_or,
}
use gardener_extension_netwo.Prelude.Result.{Result, ok, err, errorf}
use gardener_extension_netwo.Api.Types.{
  Backend, Ipv4Pool, Ipv4PoolMode, Ipv4, Ipam, Typha, NetworkConfig, bird, backend_none, pool_ipip,
  always, never,
}
use gardener_extension_netwo.Charts.Config.{CalicoConfig, host_local, use_pod_cidr, default_mtu}
use gardener_extension_netwo.Charts.Generate.{backend_supported, pool_supported, mode_supported}

-- The message about an optional value that its test refuses: a prefix and the value.
abbrev pub refused : String → (String → Bool) → Option String → Option String
refused prefix test none = none
refused prefix test (some s) = if test s then none else some (prefix <> s)

abbrev pub refused_backend : Option Backend → Option String
refused_backend = refused "unsupported value for backend: " backend_supported

abbrev pub refused_pool : Option Ipv4Pool → Option String
refused_pool = refused "unsupported value for ipv4 pool: " pool_supported

abbrev pub refused_mode : String → Option Ipv4PoolMode → Option String
refused_mode prefix = refused prefix mode_supported

-- The first message, if any.
abbrev pub first_of_two : Option String → Option String → Option String
first_of_two none m = m
first_of_two (some m) _ = some m

abbrev pub refused_ipv4 : Option Ipv4 → NetworkConfig → Option String
refused_ipv4 none config = refused_mode "unsupported value for ipip: " config.ipip
refused_ipv4 (some v) config =
    first_of_two (refused_pool v.pool) (refused_mode "unsupported value for ipv4 mode: " v.mode)

-- The message of the first value that is not supported, in the order of the source.
abbrev pub first_refused : NetworkConfig → Option String
first_refused config =
    first_of_two (refused_backend config.backend) (refused_ipv4 config.ipv4 config)

-- The mode and the detection method that the configuration asks for: those of `ipv4`, and the
-- deprecated ones where there is no `ipv4`.
abbrev pub asked_mode : Option Ipv4 → NetworkConfig → Option Ipv4PoolMode
asked_mode none config = config.ipip
asked_mode (some v) config = v.mode

abbrev pub asked_auto_detection : Option Ipv4 → NetworkConfig → Option String
asked_auto_detection none config = config.ip_auto_detection_method
asked_auto_detection (some v) config = v.auto_detection_method

abbrev pub has_backend : NetworkConfig → Bool
has_backend config = not (get_or config.backend bird == backend_none)

abbrev pub expected_ipam_type : Option Ipam → String
expected_ipam_type none = host_local
expected_ipam_type (some i) = if i.ipam_type == "" then host_local else i.ipam_type

abbrev pub expected_subnet : Option Ipam → String
expected_subnet none = use_pod_cidr
expected_subnet (some i) =
    if i.ipam_type == host_local then get_or i.cidr use_pod_cidr else use_pod_cidr

abbrev pub expected_pool : Option Ipv4 → String
expected_pool none = pool_ipip
expected_pool (some v) = get_or v.pool pool_ipip

abbrev pub expected_typha : Option Typha → Bool
expected_typha none = true
expected_typha (some t) = t.enabled

abbrev pub expected : NetworkConfig → CalicoConfig
expected config = record {
  backend = get_or config.backend bird;
  felix = record { ipinip = record { enabled = has_backend config } };
  ipv4 = record {
    pool = expected_pool config.ipv4;
    mode = get_or (asked_mode config.ipv4 config) (if has_backend config then always else never);
    auto_detection_method = asked_auto_detection config.ipv4 config;
  };
  ipam = record {
    ipam_type = expected_ipam_type config.ipam;
    subnet = expected_subnet config.ipam;
  };
  typha = record { enabled = expected_typha config.typha };
  kube_controllers = record { enabled = has_backend config };
  veth_mtu = get_or config.veth_mtu default_mtu;
  monitoring = record { enabled = true; typha_metrics_port = "9093"; felix_metrics_port = "9091" };
}

-- A refusal, or a value.
abbrev pub reject {ℓ} : {A : Type ℓ} → Option String → A → Result A
reject none a = ok a
reject (some m) a = err (errorf m)
