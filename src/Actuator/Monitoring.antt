-- ===== src/Actuator/Monitoring.antt =====
-- `applyMonitoringConfig` of pkg/controller/actuator_reconcile.go.
use gardener_extension_netwo.Prelude.{Bool, true, false, [], ◌∷◌}
use gardener_extension_netwo.Calico.{monitoring_name, calico_monitoring_chart_path}
use gardener_extension_netwo.Gardener.{Network}
use gardener_extension_netwo.Json.{end}
use gardener_extension_netwo.Actuator.Seed.{Chart, apply_chart, delete_chart, Seed, Action}

abbrev pub calico_control_plane_monitoring_chart : Chart
calico_control_plane_monitoring_chart = record {
  name = monitoring_name;
  path = calico_monitoring_chart_path;
  objects = ("ConfigMap", monitoring_name) ∷ [];
}

module _ (S : Seed) where
  unfoldable pub apply_monitoring_config : Network → Bool → Action S.State (Unit {0})
  apply_monitoring_config network true s =
      let (r, s') =
        S.perform (delete_chart calico_control_plane_monitoring_chart network.namespace) s in
      (S.ignore_not_found r, s')
  apply_monitoring_config network false s =
      S.perform (apply_chart calico_control_plane_monitoring_chart network.namespace end) s
