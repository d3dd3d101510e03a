-- ===== src/Charts/Templates/Filled.antt =====
-- What the templates make of the values that `ComputeCalicoChartValues` returns.
use gardener_extension_netwo.Prelude.{
  ◌≡◌, ap, ◌∙◌, String, Bool, Option, none, some, List, [], ◌∷◌, ◌++◌, ◌==◌, arith, if◌then◌else◌,
  Every, Option-cases, inl, inr, true, false, ◌&&◌, refl, not,
}
use gardener_extension_netwo.Prelude.Result.{ok}
use gardener_extension_netwo.Gardener.{Network}
use gardener_extension_netwo.Calico.{node_image_name}
use gardener_extension_netwo.Json.{Value, object, Members}
use gardener_extension_netwo.Json.Maps.{Agree, shape_at, go_map, go_map-Agree}
use gardener_extension_netwo.Api.Types.{NetworkConfig, backend_none}
use gardener_extension_netwo.Images.{ImageVectors, find_image}
use gardener_extension_netwo.Charts.Config.{CalicoConfig}
use gardener_extension_netwo.Charts.Generate.{generate_chart_values}
use gardener_extension_netwo.Charts.Generate.Ranges.{generate_chart_values-IsRenderable}
use gardener_extension_netwo.Charts.Values.{compute_calico_chart_values}
use gardener_extension_netwo.Charts.Values.Laws.{IsFound, image_names}
use gardener_extension_netwo.Charts.Values.Listed.{
  listed_values, compute_calico_chart_values-listed,
}
use gardener_extension_netwo.Charts.Templates.{Functions, execute, fill}
use gardener_extension_netwo.Charts.Templates.Node.{
  configmap_calico_config, calico_node_image_and_ports, calico_node_environment, calico_node_probes,
  values_yaml_keys,
}

abbrev pub if_any : Bool → List String → List String
if_any b texts = if b then texts else []

abbrev pub word : Bool → String
word b = if b then "true" else "false"

-- The config map for a chart configuration.
abbrev pub configmap_texts : Functions → CalicoConfig → List String
configmap_texts F c =
    (if c.typha.enabled then "calico-typha" else "none")
      ∷ c.backend
      ∷ c.veth_mtu
      ∷ if_any F.is_recent ("/var/log/calico/cni/cni.log" ∷ [])
    ++ (if c.ipam.subnet == ""
        then c.ipam.ipam_type ∷ []
        else c.ipam.ipam_type ∷ c.ipam.subnet ∷ [])

abbrev pub image_and_ports_texts : Functions → String → CalicoConfig → List String
image_and_ports_texts F image c =
    image ∷ if_any F.is_recent ("kubernetes-services-endpoint" ∷ [])
    ++ if_any c.monitoring.enabled (c.monitoring.felix_metrics_port ∷ [])

abbrev pub detection_texts : Option String → List String
detection_texts none = []
detection_texts (some s) = if s == "" then [] else "IP_AUTODETECTION_METHOD" ∷ s ∷ []

-- The environment of the node's container, with IP-in-IP on or off.
abbrev pub environment_texts : Functions → Network → Bool → CalicoConfig → List String
environment_texts F network ipinip c =
    if_any (c.ipam.ipam_type == "host-local") ("USE_POD_CIDR" ∷ "true" ∷ [])
    ++ if_any c.monitoring.enabled (
        "FELIX_PROMETHEUSMETRICSENABLED" ∷ "true" ∷ "FELIX_PROMETHEUSMETRICSPORT"
        ∷ c.monitoring.felix_metrics_port ∷ [])
    ++ (if F.is_recent
        then detection_texts c.ipv4.auto_detection_method
          ++ ("CALICO_IPV4POOL_VXLAN" ∷ "Never" ∷ "FELIX_VXLANMTU" ∷ "FELIX_WIREGUARDMTU" ∷ [])
        else [])
    ++ ("CALICO_IPV4POOL_CIDR"
        ∷ network.pod_cidr
        ∷ "FELIX_IPINIPENABLED"
        ∷ word ipinip
        ∷ "CALICO_IPV4POOL_"
        ∷ F.upper c.ipv4.pool
        ∷ c.ipv4.mode
        ∷ [])

abbrev pub probes_texts : CalicoConfig → List String
probes_texts c = if_any (c.backend == "bird") ("-bird-live" ∷ "-bird-ready" ∷ [])

module _ (I : ImageVectors) (vector : I.ImageVector) (version : String) (F : Functions)
    (network : Network) (on wants_vpa : Bool) (found : Every (IsFound I vector version) image_names)
    (c : CalicoConfig) where
  abbrev values : Members
  values = listed_values I vector version network on wants_vpa found c

  execute-configmap : execute F configmap_calico_config (object values) ≡ ok (configmap_texts F c)
  execute-configmap = ground arith

  execute-image_and_ports :
      execute F calico_node_image_and_ports (object values)
      ≡ ok (image_and_ports_texts F found.1.1.1.0.0 c)
  execute-image_and_ports = ground arith

  execute-environment :
      execute F calico_node_environment (object values)
      ≡ ok (environment_texts F network c.felix.ipinip.enabled c)
  execute-environment = elim (Option-cases c.ipv4.auto_detection_method) [
    | inl o ↦ ground arith
    | inr (s, o) ↦ ground arith
  ]

  execute-probes : execute F calico_node_probes (object values) ≡ ok (probes_texts c)
  execute-probes = ground arith

-- The values have a value, or nil, at each of these keys.
abbrev is_given : Option Value → Bool
is_given none = false
is_given (some v) = true

abbrev pub all_given : List (List String) → Members → Bool
all_given [] m = true
all_given (path ∷ paths) m = is_given (shape_at path (object m)) && all_given paths m

all_given-Agree :
    (paths : List (List String)) (m n : Members) → Agree m n → all_given paths m ≡ all_given paths n
all_given-Agree [] m n h = refl
all_given-Agree (path ∷ paths) m n h = λ i. is_given (h path i) && all_given-Agree paths m n h i

listed-given :
    (I : ImageVectors) (vector : I.ImageVector) (version : String) (network : Network)
    (on wants_vpa : Bool) (found : Every (IsFound I vector version) image_names) (c : CalicoConfig)
    → all_given values_yaml_keys (listed_values I vector version network on wants_vpa found c)
      ≡ true
listed-given I vector version network true wants_vpa found c = refl
listed-given I vector version network false wants_vpa found c = refl

-- With a configuration that is accepted and all seven images, the values of the chart have every key of the
-- defaults, so that none is taken, and what the templates read at the types that they read it at, so that
-- these are filled with the texts above in this order. IP-in-IP is on exactly if there is a backend.
pub compute_calico_chart_values-filled :
    (I : ImageVectors) (vector : I.ImageVector) (version : String) (F : Functions)
    (network : Network) (config : Option NetworkConfig) (on wants_vpa : Bool) {c : CalicoConfig}
    → generate_chart_values config ≡ ok c
    → (found : Every (IsFound I vector version) image_names)
    → (m : Members) × (image : String) × (compute_calico_chart_values I vector network config on
          version wants_vpa
        ≡ ok m)
      × (find_image I vector node_image_name version ≡ ok image)
      × (fill F configmap_calico_config (go_map m) ≡ ok (configmap_texts F c))
      × (fill F calico_node_image_and_ports (go_map m) ≡ ok (image_and_ports_texts F image c))
      × (fill F calico_node_environment (go_map m)
          ≡ ok (environment_texts F network (not (c.backend == backend_none)) c))
      × (fill F calico_node_probes (go_map m) ≡ ok (probes_texts c))
      × (all_given values_yaml_keys m ≡ true)
compute_calico_chart_values-filled I vector version F network config on wants_vpa {c} e found =
    let (m, computed, same) =
      compute_calico_chart_values-listed I vector version network config on wants_vpa e found in
    let r = generate_chart_values-IsRenderable config e in
    (
      m,
      found.1.1.1.0.0,
      computed,
      found.1.1.1.0.1,
      ap (fill F configmap_calico_config) same
          ∙ execute-configmap I vector version F network on wants_vpa found c,
      ap (fill F calico_node_image_and_ports) same
          ∙ execute-image_and_ports I vector version F network on wants_vpa found c,
      ap (fill F calico_node_environment) same
          ∙ execute-environment I vector version F network on wants_vpa found c
          ∙ (λ i. ok (environment_texts F network ((r.ipinip ∙ r.kube_controllers) i) c)),
      ap (fill F calico_node_probes) same
          ∙ execute-probes I vector version F network on wants_vpa found c,
      all_given-Agree values_yaml_keys m _ (go_map-Agree m _ same)
          ∙ listed-given I vector version network on wants_vpa found c,
    )
