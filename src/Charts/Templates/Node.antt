-- ===== src/Charts/Templates/Node.antt =====
-- configmap-calico-config.yaml and daemonset-calico-node.yaml of charts/internal/calico/templates/node,
-- and values.yaml of charts/internal/calico.
use gardener_extension_netwo.Prelude.{String, List, [], ◌∷◌}
use gardener_extension_netwo.Charts.Templates.{
  Actions, print, print_upper, literal, if_true, if_equal, if_recent, stop, ◌⨾◌,
}

-- configmap-calico-config.yaml
abbrev pub configmap_calico_config : Actions
configmap_calico_config =
    if_true ("config" ∷ "typha" ∷ "enabled" ∷ []) (literal "calico-typha" ⨾ stop)
      (literal "none" ⨾ stop)
    ⨾ print ("config" ∷ "backend" ∷ [])
    ⨾ print ("config" ∷ "veth_mtu" ∷ [])
    ⨾ if_recent (literal "/var/log/calico/cni/cni.log" ⨾ stop) stop
    ⨾ if_true ("config" ∷ "ipam" ∷ "subnet" ∷ [])
        (print ("config" ∷ "ipam" ∷ "type" ∷ []) ⨾ print ("config" ∷ "ipam" ∷ "subnet" ∷ []) ⨾ stop)
        (print ("config" ∷ "ipam" ∷ "type" ∷ []) ⨾ stop)
    ⨾ stop

-- The container `calico-node` of daemonset-calico-node.yaml: its image and ports, its environment, and
-- its probes.
abbrev pub calico_node_image_and_ports : Actions
calico_node_image_and_ports =
    print ("images" ∷ "calico-node" ∷ [])
    ⨾ if_recent (literal "kubernetes-services-endpoint" ⨾ stop) stop
    ⨾ if_true ("config" ∷ "monitoring" ∷ "enabled" ∷ [])
        (print ("config" ∷ "monitoring" ∷ "felixMetricsPort" ∷ []) ⨾ stop) stop
    ⨾ stop

abbrev pub calico_node_environment : Actions
calico_node_environment =
    if_equal ("config" ∷ "ipam" ∷ "type" ∷ []) "host-local"
      (literal "USE_POD_CIDR" ⨾ literal "true" ⨾ stop)
    ⨾ if_true ("config" ∷ "monitoring" ∷ "enabled" ∷ [])
        (literal "FELIX_PROMETHEUSMETRICSENABLED"
          ⨾ print ("config" ∷ "monitoring" ∷ "enabled" ∷ [])
          ⨾ literal "FELIX_PROMETHEUSMETRICSPORT"
          ⨾ print ("config" ∷ "monitoring" ∷ "felixMetricsPort" ∷ [])
          ⨾ stop)
        stop
    ⨾ if_recent
        (if_true ("config" ∷ "ipv4" ∷ "autoDetectionMethod" ∷ [])
            (literal "IP_AUTODETECTION_METHOD"
              ⨾ print ("config" ∷ "ipv4" ∷ "autoDetectionMethod" ∷ [])
              ⨾ stop)
            stop
          ⨾ stop)
        stop
    ⨾ if_recent (literal "CALICO_IPV4POOL_VXLAN" ⨾ literal "Never" ⨾ stop) stop
    ⨾ if_recent (literal "FELIX_VXLANMTU" ⨾ literal "FELIX_WIREGUARDMTU" ⨾ stop) stop
    ⨾ literal "CALICO_IPV4POOL_CIDR"
    ⨾ print ("global" ∷ "podCIDR" ∷ [])
    ⨾ literal "FELIX_IPINIPENABLED"
    ⨾ print ("config" ∷ "felix" ∷ "ipinip" ∷ "enabled" ∷ [])
    ⨾ literal "CALICO_IPV4POOL_"
    ⨾ print_upper ("config" ∷ "ipv4" ∷ "pool" ∷ [])
    ⨾ print ("config" ∷ "ipv4" ∷ "mode" ∷ [])
    ⨾ stop

abbrev pub calico_node_probes : Actions
calico_node_probes =
    if_equal ("config" ∷ "backend" ∷ []) "bird" (literal "-bird-live" ⨾ stop)
    ⨾ if_equal ("config" ∷ "backend" ∷ []) "bird" (literal "-bird-ready" ⨾ stop)
    ⨾ stop

-- values.yaml: the keys that have a default, which the renderer takes where the values do not have the key.
abbrev pub values_yaml_keys : List (List String)
values_yaml_keys =
    ("global" ∷ "podCIDR" ∷ [])
    ∷ ("config" ∷ "veth_mtu" ∷ [])
    ∷ ("config" ∷ "backend" ∷ [])
    ∷ ("config" ∷ "monitoring" ∷ "enabled" ∷ [])
    ∷ ("config" ∷ "monitoring" ∷ "felixMetricsPort" ∷ [])
    ∷ ("config" ∷ "monitoring" ∷ "typhaMetricsPort" ∷ [])
    ∷ ("config" ∷ "ipam" ∷ "type" ∷ [])
    ∷ ("config" ∷ "kubeControllers" ∷ "enabled" ∷ [])
    ∷ ("config" ∷ "typha" ∷ "enabled" ∷ [])
    ∷ ("config" ∷ "ipv4" ∷ "pool" ∷ [])
    ∷ ("config" ∷ "ipv4" ∷ "mode" ∷ [])
    ∷ ("config" ∷ "ipv4" ∷ "autoDetectionMethod" ∷ [])
    ∷ ("config" ∷ "felix" ∷ "ipinip" ∷ "enabled" ∷ [])
    ∷ ("images" ∷ "calico-node" ∷ [])
    ∷ ("images" ∷ "calico-cni" ∷ [])
    ∷ ("images" ∷ "calico-typha" ∷ [])
    ∷ ("images" ∷ "calico-kube-controllers" ∷ [])
    ∷ ("images" ∷ "calico-podtodaemon-flex" ∷ [])
    ∷ ("images" ∷ "calico-cpva" ∷ [])
    ∷ ("images" ∷ "calico-cpa" ∷ [])
    ∷ ("vpa" ∷ "enabled" ∷ [])
    ∷ []
