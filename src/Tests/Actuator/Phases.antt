-- ===== src/Tests/Actuator/Phases.antt =====
-- A reconciliation and a deletion, and the phases that they set.
use gardener_extension_netwo.Prelude.{◌≡◌, refl, [], ◌∷◌}
use gardener_extension_netwo.Prelude.Result.{ok}
use gardener_extension_netwo.Api.Decode.{calico_network_config_from_network_resource}
use gardener_extension_netwo.Images.{find_image}
use gardener_extension_netwo.Charts.Generate.{generate_chart_values}
use gardener_extension_netwo.Charts.Marshal.{to_map}
use gardener_extension_netwo.Charts.Values.{image_values, compute_calico_chart_values}
use gardener_extension_netwo.Charts.Render.{render_calico_chart}
use gardener_extension_netwo.Actuator.Seed.View.{View}
use gardener_extension_netwo.Actuator.Status.{update_provider_status}
use gardener_extension_netwo.Actuator.Monitoring.{apply_monitoring_config}
use gardener_extension_netwo.Actuator.Reconcile.{
  calico_secret, activate_system_components_node_selector, detect_nodes, provider_config, render,
  commit, reconcile,
}
use gardener_extension_netwo.Actuator.Reconcile.Desired.{committed}
use gardener_extension_netwo.Actuator.Delete.{delete}
use gardener_extension_netwo.Actuator.Attempts.{operate, reconciles, deletes}
use gardener_extension_netwo.Actuator.Phases.{
  untouched, absent, installed, Holds, Phases, set_phase, phase_after, History, begun, operated,
}
use gardener_extension_netwo.Actuator.Phases.Refined.{History-Holds}
use gardener_extension_netwo.Tests.Inputs.{network, cluster}
use gardener_extension_netwo.Tests.Actuator.Memory.{empty_view, missing, quiet, seed_that-IsLawful}

abbrev start : Phases
start n = untouched

abbrev reconciled : View
reconciled = committed network (5 ∷ []) 0 empty_view

reconciled_lem : operate quiet reconciles network cluster empty_view ≡ (ok tt, reconciled)
unfolding operate reconcile commit calico_secret apply_monitoring_config update_provider_status
    render provider_config calico_network_config_from_network_resource render_calico_chart
    compute_calico_chart_values generate_chart_values detect_nodes to_map image_values find_image
    activate_system_components_node_selector
reconciled_lem = refl

-- The phase is computed from what is rendered.
installed_lem : phase_after quiet reconciles network cluster empty_view ≡ installed (5 ∷ [])
unfolding render provider_config calico_network_config_from_network_resource render_calico_chart
    compute_calico_chart_values generate_chart_values detect_nodes to_map image_values find_image
    activate_system_components_node_selector
installed_lem = refl

abbrev removed : View
removed = (delete quiet network cluster reconciled).1

removed_lem : operate quiet deletes network cluster reconciled ≡ (ok tt, removed)
unfolding operate delete apply_monitoring_config
removed_lem = refl

abbrev end : Phases
end =
    set_phase
      (set_phase start "shoot--dev--a" (phase_after quiet reconciles network cluster empty_view))
      "shoot--dev--a" absent

abbrev history : History quiet start empty_view end removed
history =
    operated deletes network cluster (operated reconciles network cluster begun reconciled_lem)
      removed_lem

History-Holds_example : Holds "shoot--dev--a" absent removed
History-Holds_example =
    History-Holds quiet {view = λ v. v} (seed_that-IsLawful missing) {start = start}
      {s = empty_view} {phases = end} {t = removed} (λ n. tt) history "shoot--dev--a"
