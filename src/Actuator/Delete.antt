-- ===== src/Actuator/Delete.antt =====
-- pkg/controller/actuator_delete.go, actuator_migrate.go and actuator_restore.go
pub mod Gone
use gardener_extension_netwo.Prelude.{ℕ, true, ◌*◌}
use gardener_extension_netwo.Gardener.{Network, Cluster}
use gardener_extension_netwo.Actuator.Seed.{
  delete_secret, delete_managed_resource, wait_until_deleted, set_keep_objects, Action, ◌>>=◌, ◌>>◌,
}
use gardener_extension_netwo.Actuator.Environment.{Environment}
use gardener_extension_netwo.Actuator.Monitoring.{apply_monitoring_config}
use gardener_extension_netwo.Actuator.Reconcile.{calico_config_secret_name, reconcile}

-- `2*time.Minute`
abbrev pub deletion_timeout : ℕ
deletion_timeout = 2 * 60

module _ (E : Environment) where
  unfoldable pub delete : Network → Cluster → Action E.seed.State (Unit {0})
  delete network cluster = do
    apply_monitoring_config E.seed network true
    E.seed.perform (delete_secret network.namespace calico_config_secret_name)
    E.seed.perform (delete_managed_resource network.namespace calico_config_secret_name)
    E.seed.perform (wait_until_deleted deletion_timeout network.namespace calico_config_secret_name)

  unfoldable pub migrate : Network → Cluster → Action E.seed.State (Unit {0})
  migrate network cluster = do
    E.seed.perform (set_keep_objects network.namespace calico_config_secret_name true)
    delete network cluster

  unfoldable pub restore : Network → Cluster → Action E.seed.State (Unit {0})
  restore network cluster = reconcile E network cluster
