-- ===== src/Actuator/Status.antt =====
-- pkg/controller/status.go, and the status type of pkg/controller/actuator.go.
use gardener_extension_netwo.Prelude.{ℕ, String, ◌<>◌, Option, some}
use gardener_extension_netwo.Prelude.Result.{Result, ok}
use gardener_extension_netwo.Gardener.{Network}
use gardener_extension_netwo.Api.Types.{TypeMeta, NetworkConfig, NetworkStatus}
use gardener_extension_netwo.Actuator.Seed.{Status, update_status, Seed, Action, lift, ◌>>=◌}

abbrev pub group_name : String
group_name = "calico.networking.extensions.gardener.cloud"

-- `SchemeGroupVersion.String()`: the group, a slash and the version.
abbrev pub status_type_meta : TypeMeta
status_type_meta = record { kind = "NetworkStatus"; api_version = group_name <> "/" <> "v1alpha1" }

unfoldable pub compute_network_status : Option NetworkConfig → Result NetworkStatus
compute_network_status config = ok (record { type_meta = status_type_meta })

-- The function that `TryUpdateStatus` is given.
abbrev pub succeeded : NetworkStatus → ℕ → Status → Status
succeeded status now old = record {
  provider_status = some status;
  last_operation = some (record {
    last_update_time = now;
    operation_type = "Reconcile";
    state = "Succeeded";
    progress = 100;
    description = "Calico was configured successfully";
  });
}

module _ (S : Seed) where
  unfoldable pub update_provider_status : Network → Option NetworkConfig → Action S.State (Unit {0})
  unfolding compute_network_status
  update_provider_status network config = do
    status ← lift (compute_network_status config)
    S.perform (update_status network.namespace network.name (succeeded status))
