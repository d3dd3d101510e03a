-- ===== src/Actuator/Environment.antt =====
-- What the actuator is given: its fields and the packages of gardener that it calls.
use gardener_extension_netwo.Prelude.{Bool}
use gardener_extension_netwo.Prelude.Result.{Result}
use gardener_extension_netwo.Gardener.{Bytes, Worker, Shoot}
use gardener_extension_netwo.Api.Types.{NetworkConfig}
use gardener_extension_netwo.Images.{ImageVectors}
use gardener_extension_netwo.Charts.Render.{ChartRenderers}
use gardener_extension_netwo.Actuator.Seed.{Seed}

-- `system_components_allowed` and `shoot_wants_vertical_pod_autoscaler` are functions of gardener's
-- package v1beta1/helper; `decode` is the decoder of pkg/apis/calico/v1alpha1/helper.
pub record Environment : Type 1 where
  pub images : ImageVectors
  pub vector : images.ImageVector
  pub renderers : ChartRenderers
  pub decode : Bytes → Result NetworkConfig
  pub system_components_allowed : Worker → Bool
  pub shoot_wants_vertical_pod_autoscaler : Shoot → Bool
  pub seed : Seed
