-- ===== src/Actuator/Reconcile/Desired.antt =====
-- What a seed holds after `Reconcile`.
use gardener_extension_netwo.Prelude.{
  sym, List, arith, ◌≡◌, ap, ◌∙◌, ℕ, true, false, not, Option, some, [], ◌∷◌,
}
use gardener_extension_netwo.Prelude.Result.{ok}
use gardener_extension_netwo.Gardener.{Bytes, Network, Cluster}
use gardener_extension_netwo.Api.Types.{NetworkConfig}
use gardener_extension_netwo.Charts.Render.{calico_config_key}
use gardener_extension_netwo.Actuator.Seed.{
  Call, reconcile_secret, reconcile_managed_resource, apply_chart, update_status, >>=-eq-ok,
}
use gardener_extension_netwo.Json.{end}
use gardener_extension_netwo.Actuator.Seed.Script.{run, run-one, run-cons, run-Changed}
use gardener_extension_netwo.Actuator.Seed.View.{
  View, IsLawful, update, is_deleting, set_chart_objects,
}
use gardener_extension_netwo.Actuator.Environment.{Environment}
use gardener_extension_netwo.Actuator.Status.{succeeded, status_type_meta, update_provider_status}
use gardener_extension_netwo.Actuator.Monitoring.{
  calico_control_plane_monitoring_chart, apply_monitoring_config,
}
use gardener_extension_netwo.Actuator.Reconcile.{
  calico_config_secret_name, shoot_no_cleanup, calico_secret, render, commit, reconcile,
}

-- The view after the calls: the secret with the chart, the managed resource that refers to it, its
-- objects in the shoot unless it is being deleted, the monitoring objects and the status of the
-- `Network`. All else is as before.
abbrev pub committed : Network → Bytes → ℕ → View → View
committed network calico_chart now v = record v {
  secrets =
      update v.secrets network.namespace calico_config_secret_name
        (some ((calico_config_key, calico_chart) ∷ []));
  managed_resources = update v.managed_resources network.namespace calico_config_secret_name (
      some (record {
        secret_refs = calico_config_secret_name ∷ [];
        injected_labels = (shoot_no_cleanup, "true") ∷ [];
        keep_objects = false;
        deleting = is_deleting (v.managed_resources network.namespace calico_config_secret_name);
      }));
  shoot_objects =
      update v.shoot_objects network.namespace calico_config_secret_name
        (not (is_deleting (v.managed_resources network.namespace calico_config_secret_name)));
  chart_objects =
      set_chart_objects calico_control_plane_monitoring_chart network.namespace true
        v.chart_objects;
  statuses = update v.statuses network.namespace network.name (record {
    provider_status = some (record { type_meta = status_type_meta });
    last_operation = some (record {
      last_update_time = now;
      operation_type = "Reconcile";
      state = "Succeeded";
      progress = 100;
      description = "Calico was configured successfully";
    });
  });
}

-- The calls of `commit`.
abbrev pub reconcile_calls : Network → Bytes → List Call
reconcile_calls network calico_chart =
    reconcile_secret (record {
      namespace = network.namespace;
      name = calico_config_secret_name;
      key_values = (calico_config_key, calico_chart) ∷ [];
    })
    ∷ reconcile_managed_resource (record {
      namespace = network.namespace;
      name = calico_config_secret_name;
      secret_refs = calico_config_secret_name ∷ [];
      injected_labels = (shoot_no_cleanup, "true") ∷ [];
    })
    ∷ apply_chart calico_control_plane_monitoring_chart network.namespace end
    ∷ update_status network.namespace network.name
        (succeeded (record { type_meta = status_type_meta }))
    ∷ []

module _ (E : Environment) where
  -- `Reconcile` renders the chart and then makes its four calls, up to the first that does not succeed.
  pub commit-run :
      (network : Network) (config : Option NetworkConfig) (calico_chart : Bytes) (s : E.seed.State)
      → commit E network config calico_chart s ≡ run E.seed (reconcile_calls network calico_chart) s
  unfolding commit calico_secret apply_monitoring_config update_provider_status
  commit-run network config calico_chart s =
      rw (run-cons E.seed, run-cons E.seed, run-cons E.seed, run-one E.seed)

  pub render-state :
      (network : Network) (cluster : Cluster) (s : E.seed.State)
      → (render E network cluster s).1 ≡ s
  unfolding render
  render-state network cluster s = ground arith

  module _ {view : E.seed.State → View} (L : IsLawful E.seed view) where
    -- A reconciliation that ends well rendered a chart for the configuration, and the view is as
    -- `committed` says.
    pub reconcile-committed :
        (network : Network) (cluster : Cluster) (s : E.seed.State) {t : E.seed.State}
        → reconcile E network cluster s ≡ (ok tt, t)
        → (config : Option NetworkConfig) × (calico_chart : Bytes) × (now : ℕ) × ((render E network
              cluster s).0
            ≡ ok (config, calico_chart))
          × (view t ≡ committed network calico_chart now (view s))
    unfolding reconcile
    reconcile-committed network cluster s {t} h =
        let ((config, calico_chart), u, e, k) =
          >>=-eq-ok (render E network cluster)
            (λ (config, calico_chart). commit E network config calico_chart) h in
        let same : u ≡ s = sym (ap (λ r. r.1) e) ∙ render-state network cluster s in
        let (_, (_, (_, (now, p)))) =
          run-Changed E.seed L (reconcile_calls network calico_chart) u t
            (sym (commit-run network config calico_chart u) ∙ k) in
        (
          config,
          calico_chart,
          now,
          ap (λ r. r.0) e,
          p ∙ ap (λ v. committed network calico_chart now (view v)) same,
        )
