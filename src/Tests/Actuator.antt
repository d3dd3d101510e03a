-- ===== src/Tests/Actuator.antt =====
-- The actuator on a seed in memory that carries out a call or refuses it.
mod Faults
mod Phases
mod Pool
mod Total
pub mod Memory
use gardener_extension_netwo.Prelude.{
  ◌≡◌, refl, ◌⊎◌, ℕ, String, true, false, Option, none, some, [], ◌∷◌, ◌==◌, get_or,
}
use gardener_extension_netwo.Prelude.Result.{Error, ok, err, panic, errorf, ◌>>=◌}
use gardener_extension_netwo.Gardener.{Bytes}
use gardener_extension_netwo.Api.Types.{NetworkConfig}
use gardener_extension_netwo.Api.Decode.{calico_network_config_from_network_resource}
use gardener_extension_netwo.Images.{find_image}
use gardener_extension_netwo.Charts.Generate.{generate_chart_values}
use gardener_extension_netwo.Charts.Marshal.{to_map}
use gardener_extension_netwo.Charts.Values.{image_values, compute_calico_chart_values}
use gardener_extension_netwo.Charts.Render.{render_calico_chart}
use gardener_extension_netwo.Actuator.Seed.{◌>>◌, continue, set_keep_objects}
use gardener_extension_netwo.Actuator.Seed.Script.{run}
use gardener_extension_netwo.Actuator.Seed.View.{View, change}
use gardener_extension_netwo.Actuator.Status.{update_provider_status, compute_network_status}
use gardener_extension_netwo.Actuator.Monitoring.{apply_monitoring_config}
use gardener_extension_netwo.Actuator.Reconcile.{
  calico_config_secret_name, calico_secret, activate_system_components_node_selector, detect_nodes,
  new_network_config, provider_config, render, commit, reconcile,
}
use gardener_extension_netwo.Actuator.Reconcile.Desired.{
  committed, reconcile_calls, reconcile-committed,
}
use gardener_extension_netwo.Actuator.Reconcile.Rendered.{reconcile-run, reconcile-no_raw}
use gardener_extension_netwo.Actuator.Reconcile.Nodes.{
  detecting, detect_nodes-detecting, detect_nodes-ipip,
}
use gardener_extension_netwo.Actuator.Delete.{delete, migrate}
use gardener_extension_netwo.Actuator.Delete.Gone.{
  deleted, migrated, delete-deleted, migrate-migrated, remove_monitoring, delete_calls, migrate-run,
}
use gardener_extension_netwo.Actuator.Reconcile.Workers.{Allowing, activate-Allowing}
use gardener_extension_netwo.Actuator.Seed.Places.{Same}
use gardener_extension_netwo.Actuator.Isolation.{
  Elsewhere, none_yet, reconciled, was_deleted, Elsewhere-Same,
}
use gardener_extension_netwo.Actuator.Lifecycle.{status_at, reconcile-reconcile, delete-reconcile}
use gardener_extension_netwo.Actuator.Monitoring.{calico_control_plane_monitoring_chart}
use gardener_extension_netwo.Actuator.Seed.View.{update, set_chart_objects}
use gardener_extension_netwo.Command.Setup.{health_checks}
use gardener_extension_netwo.Command.Setup.Watched.{watched, reconcile-watched, delete-watched}
use gardener_extension_netwo.Prelude.{◌↔◌, Every, is_some, false}
use gardener_extension_netwo.Tests.Inputs.{
  full_config, deprecated_config, network, network_without_raw, no_raw, cluster, shoot,
}
use gardener_extension_netwo.Tests.Actuator.Memory.{
  empty_view, missing, unmarked, quiet, unlucky, seed_that-IsLawful,
}

abbrev outcome : Option NetworkConfig × Bytes
outcome = (detect_nodes shoot.nodes (some full_config), 5 ∷ [])

-- A whole reconciliation.
reconcile_lem :
    reconcile quiet network cluster empty_view ≡ (ok tt, committed network (5 ∷ []) 0 empty_view)
unfolding reconcile commit calico_secret apply_monitoring_config update_provider_status render
    provider_config calico_network_config_from_network_resource render_calico_chart
    compute_calico_chart_values generate_chart_values detect_nodes to_map image_values find_image
    activate_system_components_node_selector
reconcile_lem = refl

reconcile-committed_example :
    (config : Option NetworkConfig) × (calico_chart : Bytes) × (now : ℕ) × ((render quiet network
        cluster empty_view).0
      ≡ ok (config, calico_chart))
    × (committed network (5 ∷ []) 0 empty_view ≡ committed network calico_chart now empty_view)
reconcile-committed_example =
    reconcile-committed quiet {view = λ v. v} (seed_that-IsLawful missing) network cluster
      empty_view {t = committed network (5 ∷ []) 0 empty_view} reconcile_lem

reconcile-run_lem :
    reconcile quiet network cluster empty_view
    ≡ continue
        (render quiet network cluster empty_view).0
        empty_view
        (λ (config, calico_chart). run quiet.seed (reconcile_calls network calico_chart))
reconcile-run_lem = reconcile-run quiet network cluster empty_view

no_raw_lem :
    reconcile quiet network_without_raw cluster empty_view
    ≡ (err (errorf "provider config is not set on the network resource"), empty_view)
no_raw_lem =
    reconcile-no_raw quiet network_without_raw cluster empty_view {extension = no_raw} refl refl

detect_nodes-detecting_example :
    generate_chart_values (detect_nodes (some "10.250.0.0/16") (some full_config))
    ≡ (generate_chart_values (some full_config) >>= λ c. ok (detecting "10.250.0.0/16" c))
detect_nodes-detecting_example = detect_nodes-detecting "10.250.0.0/16" refl (some full_config) refl

detect_nodes-ipip_example :
    generate_chart_values (
      detect_nodes
        (some "10.250.0.0/16")
        (some (record deprecated_config { ipip = some "Sometimes" })))
    ≡ (generate_chart_values (some (record deprecated_config { ipip = none })) >>= λ c.
        ok (detecting "10.250.0.0/16" c))
detect_nodes-ipip_example =
    detect_nodes-ipip "10.250.0.0/16" refl deprecated_config (some "Sometimes") refl

-- The monitoring objects are missing, and the deletion goes on.
abbrev after_reconcile : View
after_reconcile = committed network (5 ∷ []) 0 empty_view

delete_lem :
    delete quiet network cluster after_reconcile
    ≡ (ok tt, (delete quiet network cluster after_reconcile).1)
unfolding delete apply_monitoring_config
delete_lem = refl

migrate_lem :
    migrate quiet network cluster after_reconcile
    ≡ (ok tt, (migrate quiet network cluster after_reconcile).1)
unfolding migrate delete apply_monitoring_config
migrate_lem = refl

delete-deleted_example :
    (delete quiet network cluster after_reconcile).1 ≡ deleted network after_reconcile
delete-deleted_example =
    delete-deleted quiet {view = λ v. v} (seed_that-IsLawful missing) network cluster
      {s = after_reconcile} {t = (delete quiet network cluster after_reconcile).1} delete_lem

migrate-migrated_example :
    (migrate quiet network cluster after_reconcile).1 ≡ migrated network after_reconcile
migrate-migrated_example =
    migrate-migrated quiet {view = λ v. v} (seed_that-IsLawful missing) network cluster
      {s = after_reconcile} {t = (migrate quiet network cluster after_reconcile).1} migrate_lem

migrate-run_lem :
    migrate unlucky network cluster after_reconcile
    ≡ (unlucky.seed.perform (set_keep_objects network.namespace calico_config_secret_name true)
          >> (remove_monitoring unlucky network cluster >> run unlucky.seed (delete_calls network)))
        after_reconcile
migrate-run_lem = migrate-run unlucky network cluster after_reconcile

-- Where the objects cannot be marked as kept, nothing is deleted.
not_kept_lem : migrate unlucky network cluster after_reconcile ≡ (
  err (errorf "conflict"),
  change (set_keep_objects network.namespace calico_config_secret_name true) 0 after_reconcile,
)
unfolding migrate
not_kept_lem = refl

reconcile_again_lem :
    reconcile quiet network cluster after_reconcile
    ≡ (ok tt, (reconcile quiet network cluster after_reconcile).1)
unfolding reconcile commit calico_secret apply_monitoring_config update_provider_status render
    provider_config calico_network_config_from_network_resource render_calico_chart
    compute_calico_chart_values generate_chart_values detect_nodes to_map image_values find_image
    activate_system_components_node_selector
reconcile_again_lem = refl

abbrev after_second : View
after_second = (reconcile quiet network cluster after_reconcile).1

reconcile-reconcile_example :
    (calico_chart : Bytes) × (m : ℕ) × (n : ℕ) × (after_reconcile
      ≡ committed network calico_chart m empty_view)
    × (after_second ≡ committed network calico_chart n empty_view)
reconcile-reconcile_example =
    reconcile-reconcile quiet {view = λ v. v} (seed_that-IsLawful missing) network cluster
      empty_view {t = after_reconcile} {u = after_second} reconcile_lem reconcile_again_lem

delete-reconcile_example :
    (now : ℕ) × ((delete quiet network cluster after_reconcile).1 ≡ record empty_view {
      secrets = update empty_view.secrets network.namespace calico_config_secret_name none;
      managed_resources =
          update empty_view.managed_resources network.namespace calico_config_secret_name none;
      shoot_objects =
          update empty_view.shoot_objects network.namespace calico_config_secret_name false;
      chart_objects =
          set_chart_objects calico_control_plane_monitoring_chart network.namespace false
            empty_view.chart_objects;
      statuses = update empty_view.statuses network.namespace network.name (status_at now);
    })
delete-reconcile_example =
    delete-reconcile quiet {view = λ v. v} (seed_that-IsLawful missing) network cluster empty_view
      {t = after_reconcile} {u = (delete quiet network cluster after_reconcile).1} reconcile_lem
      delete_lem

reconcile-watched_example :
    Every (λ check. is_some (watched after_reconcile network.namespace check) ≡ true) health_checks
reconcile-watched_example =
    reconcile-watched quiet {view = λ v. v} (seed_that-IsLawful missing) network cluster empty_view
      {t = after_reconcile} reconcile_lem

unwatched_lem :
    Every
      (λ check.
        watched (delete quiet network cluster after_reconcile).1 network.namespace check ≡ none)
      health_checks
unwatched_lem =
    delete-watched quiet {view = λ v. v} (seed_that-IsLawful missing) network cluster
      after_reconcile {t = (delete quiet network cluster after_reconcile).1} delete_lem

activate-Allowing_lem :
    (activate_system_components_node_selector quiet.system_components_allowed shoot ≡ true)
    ↔ Allowing quiet.system_components_allowed shoot.workers
activate-Allowing_lem = activate-Allowing quiet.system_components_allowed shoot

-- A reconciliation and a deletion in another namespace.
abbrev elsewhere :
    Elsewhere quiet "shoot--dev--b" empty_view (delete quiet network cluster after_reconcile).1
elsewhere =
    was_deleted network cluster (reconciled network cluster none_yet refl reconcile_lem) refl
      delete_lem

elsewhere_lem : Same "shoot--dev--b" empty_view (delete quiet network cluster after_reconcile).1
elsewhere_lem =
    Elsewhere-Same quiet {view = λ v. v} (seed_that-IsLawful missing) "shoot--dev--b"
      {s = empty_view} {t = (delete quiet network cluster after_reconcile).1} elsewhere

-- A cluster without a shoot: `Reconcile` panics, and nothing is called.
no_shoot_lem :
    reconcile quiet network (record { shoot = none }) empty_view
    ≡ (panic (errorf "invalid memory address or nil pointer dereference"), empty_view)
unfolding reconcile render provider_config calico_network_config_from_network_resource
no_shoot_lem = refl
