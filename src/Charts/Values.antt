-- ===== src/Charts/Values.antt =====
-- `ComputeCalicoChartValues` of pkg/charts/utils.go.
pub mod Laws
pub mod Listed
use gardener_extension_netwo.Prelude.{String, Bool, Option, if◌then◌else◌}
use gardener_extension_netwo.Prelude.Result.{Result, ok, ◌>>=◌, with_prefix}
use gardener_extension_netwo.Calico.{
  cni_image_name, node_image_name, typha_image_name, kube_controllers_image_name,
  pod_to_daemon_flex_volume_driver_image_name, calico_cluster_proportional_autoscaler_image_name,
  cluster_proportional_vertical_autoscaler_image_name,
}
use gardener_extension_netwo.Gardener.{Network}
use gardener_extension_netwo.Json.{Value, boolean, text, object, Members, end, member, insert}
use gardener_extension_netwo.Api.Types.{NetworkConfig}
use gardener_extension_netwo.Images.{
  ImageVectors, find_image, calico_cni_image, calico_node_image, calico_typha_image,
  calico_kube_controllers_image, calico_flex_volume_driver_image,
  cluster_proportional_autoscaler_image, cluster_proportional_vertical_autoscaler_image,
}
use gardener_extension_netwo.Charts.Generate.{generate_chart_values}
use gardener_extension_netwo.Charts.Marshal.{to_map}

-- `gardenv1beta1constants.LabelWorkerPoolSystemComponents`
abbrev pub label_worker_pool_system_components : String
label_worker_pool_system_components = "worker.gardener.cloud/system-components"

-- The map `calicoChartValues`.
abbrev pub chart_values : Network → Bool → Bool → Members → Members → Members
chart_values network system_components_activated wants_vpa images calico_config =
    let values : Members = member "vpa" (object (member "enabled" (boolean wants_vpa) end)) (
      member "images" (object images) (
        member "global" (object (member "podCIDR" (text network.pod_cidr) end))
          (member "config" (object calico_config) end))) in
    if system_components_activated
    then insert "nodeSelector"
        (object (member label_worker_pool_system_components (text "true") end)) values
    else values

module _ (I : ImageVectors) (vector : I.ImageVector) where
  -- The map of images; a missing one panics where its entry is computed.
  unfoldable pub image_values : String → Result Members
  unfolding calico_cni_image calico_node_image calico_typha_image calico_kube_controllers_image
      calico_flex_volume_driver_image cluster_proportional_autoscaler_image
      cluster_proportional_vertical_autoscaler_image
  image_values version = do
    cni ← calico_cni_image I vector version
    typha ← calico_typha_image I vector version
    controllers ← calico_kube_controllers_image I vector version
    node ← calico_node_image I vector version
    flex ← calico_flex_volume_driver_image I vector version
    cpa ← cluster_proportional_autoscaler_image I vector version
    cpva ← cluster_proportional_vertical_autoscaler_image I vector version
    ok (
        member cni_image_name (text cni) (
          member typha_image_name (text typha) (
            member kube_controllers_image_name (text controllers) (
              member node_image_name (text node) (
                member pod_to_daemon_flex_volume_driver_image_name (text flex) (
                  member calico_cluster_proportional_autoscaler_image_name (text cpa) (
                    member cluster_proportional_vertical_autoscaler_image_name (text cpva)
                      end)))))))

  unfoldable pub compute_calico_chart_values :
      Network → Option NetworkConfig → Bool → String → Bool → Result Members
  compute_calico_chart_values network config system_components_activated version wants_vpa = do
    typed ← with_prefix "error when generating calico config" (generate_chart_values config)
    calico_config ← with_prefix "could not convert calico config" (to_map typed)
    images ← image_values version
    ok (chart_values network system_components_activated wants_vpa images calico_config)
