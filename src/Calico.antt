-- ===== src/Calico.antt =====
-- The constants of pkg/calico: the extension's type, and the names of images, charts and releases.
use gardener_extension_netwo.Prelude.{String, ◌<>◌}

abbrev pub calico_type : String
calico_type = "calico"

abbrev pub name : String
name = "networking-calico"

abbrev pub cni_image_name : String
cni_image_name = "calico-cni"

abbrev pub node_image_name : String
node_image_name = "calico-node"

abbrev pub kube_controllers_image_name : String
kube_controllers_image_name = "calico-kube-controllers"

abbrev pub pod_to_daemon_flex_volume_driver_image_name : String
pod_to_daemon_flex_volume_driver_image_name = "calico-podtodaemon-flex"

abbrev pub typha_image_name : String
typha_image_name = "calico-typha"

abbrev pub calico_cluster_proportional_autoscaler_image_name : String
calico_cluster_proportional_autoscaler_image_name = "calico-cpa"

abbrev pub cluster_proportional_vertical_autoscaler_image_name : String
cluster_proportional_vertical_autoscaler_image_name = "calico-cpva"

abbrev pub monitoring_name : String
monitoring_name = "calico-monitoring-config"

abbrev pub release_name : String
release_name = "calico"

-- `filepath.Join` of plain names puts a slash between them.
abbrev pub charts_path : String
charts_path = "charts"

abbrev pub internal_charts_path : String
internal_charts_path = charts_path <> "/" <> "internal"

abbrev pub calico_chart_path : String
calico_chart_path = internal_charts_path <> "/" <> "calico"

abbrev pub calico_monitoring_chart_path : String
calico_monitoring_chart_path = internal_charts_path <> "/" <> "calico-monitoring"
