-- ===== src/Gardener.antt =====
-- The fields of gardener's API objects (`Network`, `Shoot`, `Worker`) that this program reads.
use gardener_extension_netwo.Prelude.{ℕ, String, Bool, Option, List}

-- `[]byte`
abbrev pub Bytes : Type 0
Bytes = List ℕ

-- `runtime.RawExtension`: `raw` is nil where only the decoded object is there.
pub record RawExtension : Type 0 where
  pub raw : Option Bytes

-- An `extensions.gardener.cloud/v1alpha1` `Network`, without its status.
pub record Network : Type 0 where
  pub namespace : String
  pub name : String
  pub pod_cidr : String
  pub service_cidr : String
  pub provider_config : Option RawExtension

-- A worker pool: `system_components` is `SystemComponents`, by its field `Allow`.
pub record Worker : Type 0 where
  pub name : String
  pub system_components : Option Bool

-- `Shoot.Spec`: `nodes` is `Networking.Nodes`, `kubernetes_version` is `Kubernetes.Version` and
-- `vertical_pod_autoscaler` is `Kubernetes.VerticalPodAutoscaler`, by its field `Enabled`.
pub record Shoot : Type 0 where
  pub nodes : Option String
  pub kubernetes_version : String
  pub workers : List Worker
  pub vertical_pod_autoscaler : Option Bool

-- `extensionscontroller.Cluster`; the shoot is nil where the cluster resource has none.
pub record Cluster : Type 0 where
  pub shoot : Option Shoot
