-- ===== src/Images.antt =====
-- pkg/imagevector: the image vector that is read at the start, and one function for each image.
use gardener_extension_netwo.Prelude.{String}
use gardener_extension_netwo.Prelude.Result.{Result, ok, ◌>>=◌, must}
use gardener_extension_netwo.Calico.{
  cni_image_name, node_image_name, typha_image_name, kube_controllers_image_name,
  pod_to_daemon_flex_volume_driver_image_name, calico_cluster_proportional_autoscaler_image_name,
  cluster_proportional_vertical_autoscaler_image_name,
}

-- gardener's package imagevector. `find` takes an image's name, the runtime's version and the
-- target's version.
pub record ImageVectors : Type 1 where
  pub ImageVector : Type 0
  pub Image : Type 0
  pub read : String → Result ImageVector
  pub with_env_override : ImageVector → Result ImageVector
  pub find : ImageVector → String → String → String → Result Image
  pub to_string : Image → String

module _ (I : ImageVectors) where
  -- `init`: what it leaves in the package's variable, given the text of charts/images.yaml.
  pub init : String → Result I.ImageVector
  init images_yaml = do vector ← must (I.read images_yaml); must (I.with_env_override vector)

  unfoldable pub find_image : I.ImageVector → String → String → Result String
  find_image vector name version = do
    image ← must (I.find vector name version version)
    ok (I.to_string image)

  unfoldable pub calico_cni_image : I.ImageVector → String → Result String
  calico_cni_image vector version = find_image vector cni_image_name version

  unfoldable pub calico_node_image : I.ImageVector → String → Result String
  calico_node_image vector version = find_image vector node_image_name version

  unfoldable pub calico_typha_image : I.ImageVector → String → Result String
  calico_typha_image vector version = find_image vector typha_image_name version

  unfoldable pub calico_kube_controllers_image : I.ImageVector → String → Result String
  calico_kube_controllers_image vector version =
      find_image vector kube_controllers_image_name version

  unfoldable pub calico_flex_volume_driver_image : I.ImageVector → String → Result String
  calico_flex_volume_driver_image vector version =
      find_image vector pod_to_daemon_flex_volume_driver_image_name version

  unfoldable pub cluster_proportional_autoscaler_image : I.ImageVector → String → Result String
  cluster_proportional_autoscaler_image vector version =
      find_image vector calico_cluster_proportional_autoscaler_image_name version

  unfoldable pub cluster_proportional_vertical_autoscaler_image :
      I.ImageVector → String → Result String
  cluster_proportional_vertical_autoscaler_image vector version =
      find_image vector cluster_proportional_vertical_autoscaler_image_name version
