-- ===== src/Actuator/Attempts/Elsewhere.antt =====
-- Operations on `Network`s of other namespaces, whether they end well or not.
use gardener_extension_netwo.Prelude.{◌≡◌, String, false, true, ◌==◌, List, [], ◌∷◌, Every}
use gardener_extension_netwo.Gardener.{Network, Cluster}
use gardener_extension_netwo.Actuator.Seed.{Call, set_keep_objects, delete_chart}
use gardener_extension_netwo.Actuator.Seed.View.{View}
use gardener_extension_netwo.Actuator.Seed.Places.{Same, Same-refl, Same-trans, IsAway, change-away}
use gardener_extension_netwo.Actuator.Environment.{Environment}
use gardener_extension_netwo.Actuator.Reconcile.{calico_config_secret_name, reconcile}
use gardener_extension_netwo.Actuator.Monitoring.{calico_control_plane_monitoring_chart}
use gardener_extension_netwo.Actuator.Reconcile.Desired.{reconcile_calls}
use gardener_extension_netwo.Actuator.Delete.{delete, migrate, restore}
use gardener_extension_netwo.Actuator.Delete.Gone.{delete_calls}
use gardener_extension_netwo.Actuator.Attempts.{
  IsAtomic, Operation, reconciles, deletes, migrates, restores, operate, operate_all, Keeps,
  perform-Keeps, continue-Keeps, reconcile-Keeps, delete-Keeps,
}

-- An operation on a `Network` that is not in namespace `n`.
abbrev pub IsElsewhere : String → Operation × Network × Cluster → Type 0
IsElsewhere n (op, network, cluster) = (n == network.namespace) ≡ false

module _ (E : Environment) {view : E.seed.State → View} (A : IsAtomic E.seed view)
    (n : String) where
  away-Keeps : (v : View) (c : Call) → IsAway n c → Keeps (Same n v) c
  away-Keeps v c e now w p = Same-trans n p (change-away n c now w e)

  all_away-Keeps : (v : View) (cs : List Call) → Every (IsAway n) cs → Every (Keeps (Same n v)) cs
  all_away-Keeps v [] h = tt
  all_away-Keeps v (c ∷ cs) (e, h) = (away-Keeps v c e, all_away-Keeps v cs h)

  reconcile-Same :
      (network : Network) (cluster : Cluster) (s : E.seed.State)
      → (n == network.namespace) ≡ false
      → Same n (view s) (view (reconcile E network cluster s).1)
  reconcile-Same network cluster s other =
      reconcile-Keeps E A (Same n (view s)) network cluster s
        (λ calico_chart.
          all_away-Keeps (view s) (reconcile_calls network calico_chart)
            (other, (other, (other, (other, tt)))))
        (Same-refl n (view s))

  delete-Same :
      (network : Network) (cluster : Cluster) (s : E.seed.State)
      → (n == network.namespace) ≡ false
      → Same n (view s) (view (delete E network cluster s).1)
  delete-Same network cluster s other =
      delete-Keeps E A (Same n (view s)) network cluster s
        (away-Keeps (view s) (delete_chart calico_control_plane_monitoring_chart network.namespace)
          other)
        (all_away-Keeps (view s) (delete_calls network) (other, (other, (other, tt))))
        (Same-refl n (view s))

  migrate-Same :
      (network : Network) (cluster : Cluster) (s : E.seed.State)
      → (n == network.namespace) ≡ false
      → Same n (view s) (view (migrate E network cluster s).1)
  unfolding migrate
  migrate-Same network cluster s other =
      let mark = set_keep_objects network.namespace calico_config_secret_name true in
      let marked =
        perform-Keeps E.seed A (Same n (view s)) mark s (away-Keeps (view s) mark other)
          (Same-refl n (view s)) in
      let (r, t) = E.seed.perform mark s in
      continue-Keeps E.seed A (Same n (view s)) r t (λ _. delete E network cluster) marked
        λ _. Same-trans n marked (delete-Same network cluster t other)

  operate-Same :
      (op : Operation) (network : Network) (cluster : Cluster) (s : E.seed.State)
      → (n == network.namespace) ≡ false
      → Same n (view s) (view (operate E op network cluster s).1)
  unfolding operate restore
  operate-Same reconciles network cluster s other = reconcile-Same network cluster s other
  operate-Same deletes network cluster s other = delete-Same network cluster s other
  operate-Same migrates network cluster s other = migrate-Same network cluster s other
  operate-Same restores network cluster s other = reconcile-Same network cluster s other

  -- However many operations are made on `Network`s of other namespaces, and however each of them ends, in
  -- namespace `n` all is as it was.
  pub operate_all-Same :
      (ops : List (Operation × Network × Cluster)) (s : E.seed.State)
      → Every (IsElsewhere n) ops
      → Same n (view s) (view (operate_all E ops s))
  unfolding operate_all
  operate_all-Same [] s h = Same-refl n (view s)
  operate_all-Same ((op, network, cluster) ∷ rest) s (other, h) =
      Same-trans n (operate-Same op network cluster s other)
        (operate_all-Same rest (operate E op network cluster s).1 h)
