-- ===== src/Actuator/Reconcile.antt =====
-- pkg/controller/actuator_reconcile.go
pub mod Desired
pub mod Given
pub mod Nodes
pub mod Rendered
pub mod Total
pub mod Workers
use gardener_extension_netwo.Prelude.{
  String, ◌<>◌, Bool, true, false, Option, none, some, List, [], ◌∷◌, ◌++◌, ◌==◌, if◌then◌else◌,
  get_or, not,
}
use gardener_extension_netwo.Prelude.Result.{Result, ok, err, panic, wrap, non_nil}
use gardener_extension_netwo.Gardener.{Bytes, Network, Worker, Shoot, Cluster}
use gardener_extension_netwo.Api.Types.{Ipv4, NetworkConfig}
use gardener_extension_netwo.Api.Decode.{calico_network_config_from_network_resource}
use gardener_extension_netwo.Charts.Render.{calico_config_key, render_calico_chart}
use gardener_extension_netwo.Actuator.Seed.{
  Secret, reconcile_secret, reconcile_managed_resource, Action, lift, ◌>>=◌, ◌>>◌,
}
use gardener_extension_netwo.Actuator.Environment.{Environment}
use gardener_extension_netwo.Actuator.Status.{update_provider_status}
use gardener_extension_netwo.Actuator.Monitoring.{apply_monitoring_config}

abbrev pub calico_config_secret_name : String
calico_config_secret_name = "extension-networking-calico-config"

-- `constants.ShootNoCleanup`
abbrev pub shoot_no_cleanup : String
shoot_no_cleanup = "shoot.gardener.cloud/no-cleanup"

-- A `corev1.LocalObjectReference` is its name. The loop appends to what it has.
refs_loop : List String → List String → List String
refs_loop refs [] = refs
refs_loop refs (ref ∷ rest) = refs_loop (refs ++ (ref ∷ [])) rest

unfoldable pub with_local_object_refs : List String → List String
unfolding refs_loop
with_local_object_refs refs = refs_loop [] refs

unfoldable pub calico_secret : Bytes → String → Secret × List String
unfolding with_local_object_refs
calico_secret calico_config namespace = (
  record {
    namespace = namespace;
    name = calico_config_secret_name;
    key_values = (calico_config_key, calico_config) ∷ [];
  },
  with_local_object_refs (calico_config_secret_name ∷ []),
)

-- The loop over the workers, which breaks at the first that allows system components.
unfoldable pub workers_loop : (Worker → Bool) → List Worker → Bool
workers_loop allowed [] = false
workers_loop allowed (worker ∷ rest) = if allowed worker then true else workers_loop allowed rest

unfoldable pub activate_system_components_node_selector : (Worker → Bool) → Shoot → Bool
unfolding workers_loop
activate_system_components_node_selector allowed shoot = workers_loop allowed shoot.workers

-- `&calicov1alpha1.NetworkConfig{}` and `&calicov1alpha1.IPv4{}`
abbrev pub new_network_config : NetworkConfig
new_network_config = record {
  type_meta = record { kind = ""; api_version = "" };
  backend = none;
  ipam = none;
  ipv4 = none;
  typha = none;
  veth_mtu = none;
  ipip = none;
  ip_auto_detection_method = none;
}

abbrev pub new_ipv4 : Ipv4
new_ipv4 = record { pool = none; mode = none; auto_detection_method = none }

-- The detection method for the shoot's nodes, written into the configuration.
abbrev pub with_auto_detection_method : String → Option NetworkConfig → Option NetworkConfig
with_auto_detection_method nodes config =
    let config : NetworkConfig = get_or config new_network_config in
    some (record config {
      ipv4 = some (record (get_or config.ipv4 new_ipv4) {
        auto_detection_method = some ("cidr=" <> nodes);
      });
    })

unfoldable pub detect_nodes : Option String → Option NetworkConfig → Option NetworkConfig
detect_nodes none config = config
detect_nodes (some nodes) config =
    if nodes == "" then config else with_auto_detection_method nodes config

-- `errors.Wrapf`
abbrev pub wrapping {ℓ} : {A : Type ℓ} → String → Result A → Result A
wrapping s (ok a) = ok a
wrapping s (err e) = err (wrap s e)
wrapping s (panic e) = panic e

module _ (E : Environment) where
  -- The configuration is read only if there is a provider config.
  unfoldable pub provider_config : Network → Result (Option NetworkConfig)
  unfolding calico_network_config_from_network_resource
  provider_config network = elim network.provider_config [
    | none ↦ ok none
    | some _ ↦ elim (calico_network_config_from_network_resource E.decode network) [
      | ok config ↦ ok (some config)
      | err e ↦ err e
      | panic e ↦ panic e
    ]
  ]

  -- `Reconcile`, up to its first call to the seed: the configuration and the rendered chart.
  unfoldable pub render : Network → Cluster → Action E.seed.State (Option NetworkConfig × Bytes)
  render network cluster = do
    config ← lift (provider_config network)
    shoot ← lift (non_nil cluster.shoot)
    let config = detect_nodes shoot.nodes config
    renderer ← lift (
        wrapping ("could not create chart renderer for shoot '" <> network.namespace <> "'")
          (E.renderers.new_for_shoot shoot.kubernetes_version))
    calico_chart ← lift (
        render_calico_chart E.images E.vector E.renderers renderer network config
          (activate_system_components_node_selector E.system_components_allowed shoot)
          shoot.kubernetes_version (E.shoot_wants_vertical_pod_autoscaler shoot))
    lift (ok (config, calico_chart))

  -- The rest of `Reconcile`.
  unfoldable pub commit : Network → Option NetworkConfig → Bytes → Action E.seed.State (Unit {0})
  commit network config calico_chart =
      let (secret, secret_refs) = calico_secret calico_chart network.namespace in
      do
        E.seed.perform (reconcile_secret secret)
        E.seed.perform (
            reconcile_managed_resource (record {
              namespace = network.namespace;
              name = calico_config_secret_name;
              secret_refs = secret_refs;
              injected_labels = (shoot_no_cleanup, "true") ∷ [];
            }))
        apply_monitoring_config E.seed network false
        update_provider_status E.seed network config

  unfoldable pub reconcile : Network → Cluster → Action E.seed.State (Unit {0})
  reconcile network cluster = do
    (config, calico_chart) ← render network cluster
    commit network config calico_chart
