-- ===== src/Actuator/Reconcile/Given.antt =====
-- What `Reconcile` decodes and detects, described field by field.
use gardener_extension_netwo.Prelude.{
  ◌≡◌, refl, ◌⊎◌, inl, inr, String, ◌<>◌, Option, none, some, ◌==◌, and_then, get_or, Bool-cases,
  Option-cases, eq_iff, arith,
}
use gardener_extension_netwo.Prelude.Result.{Result, ok}
use gardener_extension_netwo.Gardener.{Bytes, RawExtension, Network}
use gardener_extension_netwo.Api.Types.{Ipv4, NetworkConfig}
use gardener_extension_netwo.Api.Decode.{calico_network_config_from_network_resource}
use gardener_extension_netwo.Actuator.Environment.{Environment}
use gardener_extension_netwo.Actuator.Reconcile.{
  provider_config, detect_nodes, with_auto_detection_method, new_ipv4,
}

-- The configuration is what the raw bytes of the provider config are decoded into; there is none if there
-- is no provider config.
abbrev pub IsDecoded :
    (Bytes → Result NetworkConfig) → Option RawExtension → Option NetworkConfig → Type 0
IsDecoded decode none none = Unit
IsDecoded decode none (some config) = ⊥
IsDecoded decode (some extension) none = ⊥
IsDecoded decode (some extension) (some config) =
    (raw : Bytes) × (extension.raw ≡ some raw) × (decode raw ≡ ok config)

-- The configuration has the detection method for the nodes, and all else as it was given.
pub record Detects (nodes : String) (given config : Option NetworkConfig) : Type 0 where
  pub completed : NetworkConfig
  pub is_completed : config ≡ some completed
  pub ipv4 : Ipv4
  pub has_ipv4 : completed.ipv4 ≡ some ipv4
  pub method : ipv4.auto_detection_method ≡ some ("cidr=" <> nodes)
  pub pool : ipv4.pool ≡ and_then given (λ g. and_then g.ipv4 (λ v. v.pool))
  pub mode : ipv4.mode ≡ and_then given (λ g. and_then g.ipv4 (λ v. v.mode))
  pub backend : completed.backend ≡ and_then given (λ g. g.backend)
  pub ipam : completed.ipam ≡ and_then given (λ g. g.ipam)
  pub typha : completed.typha ≡ and_then given (λ g. g.typha)
  pub veth_mtu : completed.veth_mtu ≡ and_then given (λ g. g.veth_mtu)
  pub ipip : completed.ipip ≡ and_then given (λ g. g.ipip)
  pub ip_auto_detection_method :
      completed.ip_auto_detection_method ≡ and_then given (λ g. g.ip_auto_detection_method)

abbrev pub IsDetected : Option String → Option NetworkConfig → Option NetworkConfig → Type 0
IsDetected none given config = config ≡ given
IsDetected (some nodes) given config =
    ((nodes ≡ "") × (config ≡ given)) ⊎ Detects nodes given config

get_or-new_ipv4 :
    (o : Option Ipv4)
    → ((get_or o new_ipv4).pool ≡ and_then o (λ v. v.pool))
      × ((get_or o new_ipv4).mode ≡ and_then o (λ v. v.mode))
get_or-new_ipv4 none = (refl, refl)
get_or-new_ipv4 (some v) = (refl, refl)

detects :
    (nodes : String) (given : Option NetworkConfig)
    → Detects nodes given (with_auto_detection_method nodes given)
detects nodes none = record {
  completed = _;
  is_completed = refl;
  ipv4 = _;
  has_ipv4 = refl;
  method = refl;
  pool = refl;
  mode = refl;
  backend = refl;
  ipam = refl;
  typha = refl;
  veth_mtu = refl;
  ipip = refl;
  ip_auto_detection_method = refl;
}
detects nodes (some g) = record {
  completed = _;
  is_completed = refl;
  ipv4 = _;
  has_ipv4 = refl;
  method = refl;
  pool = (get_or-new_ipv4 g.ipv4).0;
  mode = (get_or-new_ipv4 g.ipv4).1;
  backend = refl;
  ipam = refl;
  typha = refl;
  veth_mtu = refl;
  ipip = refl;
  ip_auto_detection_method = refl;
}

pub detect_nodes-IsDetected :
    (nodes : Option String) (given : Option NetworkConfig)
    → IsDetected nodes given (detect_nodes nodes given)
unfolding detect_nodes
detect_nodes-IsDetected none given = refl
detect_nodes-IsDetected (some nodes) given = elim (Bool-cases (nodes == "")) [
  | inl e ↦ inl ((eq_iff nodes "").0 e, rw e refl)
  | inr e ↦ inr (rw e (detects nodes given))
]

module _ (decode : Bytes → Result NetworkConfig) where
  extension-decoded :
      (network : Network) {extension : RawExtension} {config : NetworkConfig}
      → network.provider_config ≡ some extension
      → calico_network_config_from_network_resource decode network ≡ ok config
      → (raw : Bytes) × (extension.raw ≡ some raw) × (decode raw ≡ ok config)
  unfolding calico_network_config_from_network_resource
  extension-decoded network {extension} e h = elim (Option-cases extension.raw) [
    | inl f ↦ absurd (ground arith)
    | inr (raw, f) ↦ (raw, f, ground arith)
  ]

module _ (E : Environment) where
  pub provider_config-IsDecoded :
      (network : Network) (config : Option NetworkConfig)
      → provider_config E network ≡ ok config
      → IsDecoded E.decode network.provider_config config
  unfolding provider_config
  provider_config-IsDecoded network none h = elim (Option-cases network.provider_config) [
    | inl e ↦ rw e tt
    | inr (extension, e) ↦ absurd (ground arith)
  ]
  provider_config-IsDecoded network (some config) h = elim (Option-cases network.provider_config) [
    | inl e ↦ absurd (ground arith)
    | inr (extension, e) ↦ rw e (extension-decoded E.decode network e (ground arith))
  ]
