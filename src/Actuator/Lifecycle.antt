-- ===== src/Actuator/Lifecycle.antt =====
-- Reconciliations and deletions one after the other.
use gardener_extension_netwo.Prelude.{
  ◌≡◌, sym, ap, ◌∙◌, ℕ, String, Bool, true, false, not, Option, some, none, arith, [], ◌∷◌, ◌&&◌,
}
use gardener_extension_netwo.Prelude.Result.{ok, ok-injective}
use gardener_extension_netwo.Gardener.{Bytes, Network, Cluster}
use gardener_extension_netwo.Actuator.Seed.View.{
  View, Managed, Named, IsLawful, update, is_deleting, keeps, set_chart_objects,
}
use gardener_extension_netwo.Actuator.Seed.Updates.{
  update_self, update-update, set_chart_objects-set_chart_objects,
}
use gardener_extension_netwo.Actuator.Seed.{Status}
use gardener_extension_netwo.Charts.Render.{calico_config_key}
use gardener_extension_netwo.Actuator.Environment.{Environment}
use gardener_extension_netwo.Actuator.Status.{status_type_meta}
use gardener_extension_netwo.Actuator.Monitoring.{calico_control_plane_monitoring_chart}
use gardener_extension_netwo.Actuator.Reconcile.{
  calico_config_secret_name, shoot_no_cleanup, render, reconcile,
}
use gardener_extension_netwo.Actuator.Reconcile.Desired.{committed, reconcile-committed}
use gardener_extension_netwo.Actuator.Delete.{delete}
use gardener_extension_netwo.Actuator.Delete.Gone.{deleted, delete-deleted}

abbrev managed_with : Bool → Managed
managed_with deleting = record {
  secret_refs = calico_config_secret_name ∷ [];
  injected_labels = (shoot_no_cleanup, "true") ∷ [];
  keep_objects = false;
  deleting = deleting;
}

abbrev pub status_at : ℕ → Status
status_at now = record {
  provider_status = some (record { type_meta = status_type_meta });
  last_operation = some (record {
    last_update_time = now;
    operation_type = "Reconcile";
    state = "Succeeded";
    progress = 100;
    description = "Calico was configured successfully";
  });
}

-- Committing twice is committing once, with the later chart and time.
committed-committed :
    (network : Network) (a b : Bytes) (m n : ℕ) (v : View)
    → committed network a m (committed network b n v) ≡ committed network a m v
committed-committed network a b m n v =
    let space : String = network.namespace in
    let k : String = calico_config_secret_name in
    let old : Option Managed = v.managed_resources space k in
    let first : Option Managed = some (managed_with (is_deleting old)) in
    let seen : is_deleting (update v.managed_resources space k first space k) ≡ is_deleting old =
      ap is_deleting (update_self v.managed_resources space k first) in
    let rewritten =
      ap (λ d. update (update v.managed_resources space k first) space k (some (managed_with d)))
        seen
      ∙ update-update v.managed_resources space k first first in
    let there : Bool = not (is_deleting old) in
    let objects =
      ap (λ d. update (update v.shoot_objects space k there) space k (not d)) seen
      ∙ update-update v.shoot_objects space k there there in
    λ i. record (committed network a m v) {
      secrets =
          update-update v.secrets space k (some ((calico_config_key, b) ∷ []))
            (some ((calico_config_key, a) ∷ [])) i;
      managed_resources = rewritten i;
      shoot_objects = objects i;
      chart_objects =
          set_chart_objects-set_chart_objects calico_control_plane_monitoring_chart space true true
            v.chart_objects i;
      statuses = update-update v.statuses space network.name (status_at n) (status_at m) i;
    }

-- Deleting what was committed leaves the status alone.
deleted-committed :
    (network : Network) (a : Bytes) (m : ℕ) (v : View)
    → deleted network (committed network a m v) ≡ record v {
      secrets = update v.secrets network.namespace calico_config_secret_name none;
      managed_resources =
          update v.managed_resources network.namespace calico_config_secret_name none;
      shoot_objects = update v.shoot_objects network.namespace calico_config_secret_name false;
      chart_objects =
          set_chart_objects calico_control_plane_monitoring_chart network.namespace false
            v.chart_objects;
      statuses = update v.statuses network.namespace network.name (status_at m);
    }
deleted-committed network a m v =
    let space : String = network.namespace in
    let k : String = calico_config_secret_name in
    let first : Option Managed = some (managed_with (is_deleting (v.managed_resources space k))) in
    let dropped : keeps (update v.managed_resources space k first space k) ≡ false =
      ap keeps (update_self v.managed_resources space k first) in
    let there : Bool = not (is_deleting (v.managed_resources space k)) in
    let written : Named Bool = update v.shoot_objects space k there in
    let objects =
      ap (λ d. update written space k (d && written space k)) dropped
      ∙ update-update v.shoot_objects space k there false in
    λ i. record v {
      secrets = update-update v.secrets space k (some ((calico_config_key, a) ∷ [])) none i;
      managed_resources = update-update v.managed_resources space k first none i;
      shoot_objects = objects i;
      chart_objects =
          set_chart_objects-set_chart_objects calico_control_plane_monitoring_chart space false true
            v.chart_objects i;
      statuses = update v.statuses space network.name (status_at m);
    }

module _ (E : Environment) (network : Network) (cluster : Cluster) where
  -- The rendering does not depend on the state of the seed.
  pub render-render :
      (s t : E.seed.State) → (render E network cluster s).0 ≡ (render E network cluster t).0
  unfolding render
  render-render s t = ground arith

module _ (E : Environment) {view : E.seed.State → View} (L : IsLawful E.seed view) where
  -- Two reconciliations that end well, one after the other, with the same `Network` and cluster, leave the
  -- view that one leaves, with the later time in the status.
  pub reconcile-reconcile :
      (network : Network) (cluster : Cluster) (s : E.seed.State) {t u : E.seed.State}
      → reconcile E network cluster s ≡ (ok tt, t)
      → reconcile E network cluster t ≡ (ok tt, u)
      → (calico_chart : Bytes) × (m : ℕ) × (n : ℕ) × (view t
          ≡ committed network calico_chart m (view s))
        × (view u ≡ committed network calico_chart n (view s))
  reconcile-reconcile network cluster s {t} {u} h k =
      let (config, a, m, e, p) = reconcile-committed E L network cluster s h in
      let (config', b, n, f, q) = reconcile-committed E L network cluster t k in
      let same : b ≡ a =
        ap (λ x. x.1) (ok-injective (sym f ∙ render-render E network cluster t s ∙ e)) in
      (
        a,
        m,
        n,
        p,
        q
            ∙ ap (committed network b n) p
            ∙ committed-committed network b a n m (view s)
            ∙ ap (λ x. committed network x n (view s)) same,
      )

  -- A deletion after a reconciliation, both ending well, leaves no secret, no managed resource, no objects
  -- of it in the shoot and no monitoring objects; of the reconciliation only the status is left.
  pub delete-reconcile :
      (network : Network) (cluster : Cluster) (s : E.seed.State) {t u : E.seed.State}
      → reconcile E network cluster s ≡ (ok tt, t)
      → delete E network cluster t ≡ (ok tt, u)
      → (now : ℕ) × (view u ≡ record (view s) {
        secrets = update (view s).secrets network.namespace calico_config_secret_name none;
        managed_resources =
            update (view s).managed_resources network.namespace calico_config_secret_name none;
        shoot_objects =
            update (view s).shoot_objects network.namespace calico_config_secret_name false;
        chart_objects =
            set_chart_objects calico_control_plane_monitoring_chart network.namespace false
              (view s).chart_objects;
        statuses = update (view s).statuses network.namespace network.name (status_at now);
      })
  delete-reconcile network cluster s {t} {u} h k =
      let (config, a, now, e, p) = reconcile-committed E L network cluster s {t = t} h in
      (
        now,
        delete-deleted E L network cluster {s = t} {t = u} k
            ∙ ap (deleted network) p
            ∙ deleted-committed network a now (view s),
      )
