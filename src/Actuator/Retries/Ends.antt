-- ===== src/Actuator/Retries/Ends.antt =====
-- Where a seed fails finitely often, the operations end well when they are tried again.
use gardener_extension_netwo.Prelude.{
  ◌≡◌, refl, sym, ap, ◌∙◌, ℕ, ◌≤◌, inl, Option, List, [], ◌∷◌, true, arith, Every,
}
use gardener_extension_netwo.Prelude.Result.{Result, ok, ok-injective}
use gardener_extension_netwo.Gardener.{Bytes, Network, Cluster}
use gardener_extension_netwo.Api.Types.{NetworkConfig}
use gardener_extension_netwo.Actuator.Seed.{Call, set_keep_objects, delete_chart}
use gardener_extension_netwo.Actuator.Seed.Script.{run}
use gardener_extension_netwo.Actuator.Seed.View.{View, IsLawful}
use gardener_extension_netwo.Actuator.Environment.{Environment}
use gardener_extension_netwo.Actuator.Monitoring.{calico_control_plane_monitoring_chart}
use gardener_extension_netwo.Actuator.Reconcile.{calico_config_secret_name, render, reconcile}
use gardener_extension_netwo.Actuator.Reconcile.Desired.{
  committed, reconcile_calls, reconcile-committed,
}
use gardener_extension_netwo.Actuator.Reconcile.Rendered.{reconcile-run}
use gardener_extension_netwo.Actuator.Delete.{delete, migrate}
use gardener_extension_netwo.Actuator.Delete.Gone.{
  deleted, migrated, delete_calls, remove_monitoring, delete-run, delete-deleted, migrate-migrated,
}
use gardener_extension_netwo.Actuator.Lifecycle.{render-render}
use gardener_extension_netwo.Actuator.Retries.{
  retried, after, outcome, Recovers, Progresses, >>-Progresses, retried-last,
}

module _ (E : Environment) {faults : E.seed.State → ℕ} (R : Recovers E.seed faults) where
  -- A call whose errors are not ignored.
  abbrev IsPlain : Call → Type 0
  IsPlain c = (r : Result (Unit {0})) → outcome E.seed c r ≡ r

  run-Progresses : (cs : List Call) → Every IsPlain cs → Progresses faults (run E.seed cs)
  unfolding run
  run-Progresses [] plain s = inl (refl, omega arith)
  run-Progresses (c ∷ cs) (plain, rest) s =
      >>-Progresses faults (E.seed.perform c) (run E.seed cs)
        (λ s. rw (sym (plain (E.seed.perform c s).0)) (R.called c s)) (run-Progresses cs rest) s

  delete-Progresses :
      (network : Network) (cluster : Cluster) → Progresses faults (delete E network cluster)
  delete-Progresses network cluster s = rw (delete-run E network cluster s) (
      >>-Progresses faults (remove_monitoring E network cluster) (run E.seed (delete_calls network))
        (R.called (delete_chart calico_control_plane_monitoring_chart network.namespace))
        (run-Progresses (delete_calls network) ((λ r. refl), ((λ r. refl), ((λ r. refl), tt)))) s)

  migrate-Progresses :
      (network : Network) (cluster : Cluster) → Progresses faults (migrate E network cluster)
  unfolding migrate
  migrate-Progresses network cluster =
      >>-Progresses faults
        (E.seed.perform (set_keep_objects network.namespace calico_config_secret_name true)) _
        (R.called _) (delete-Progresses network cluster)

  reconcile-Progresses :
      (network : Network) (cluster : Cluster) (s : E.seed.State) {config : Option NetworkConfig}
      {calico_chart : Bytes}
      → (render E network cluster s).0 ≡ ok (config, calico_chart)
      → Progresses faults (reconcile E network cluster)
  reconcile-Progresses network cluster s {calico_chart = calico_chart} e t =
      rw (reconcile-run E network cluster t, render-render E network cluster t s, e)
        (run-Progresses (reconcile_calls network calico_chart)
          ((λ r. refl), ((λ r. refl), ((λ r. refl), ((λ r. refl), tt)))) t)

  module _ {view : E.seed.State → View} (L : IsLawful E.seed view) where
    -- Where a state has at most `n` failures left and the chart can be rendered, one of a reconciliation and
    -- `n` repetitions ends well, and what the seed then holds is the rendered chart committed to what the
    -- `k` attempts before it have left.
    pub reconcile-retried :
        (network : Network) (cluster : Cluster) (n : ℕ) (s : E.seed.State)
        {config : Option NetworkConfig} {calico_chart : Bytes}
        → (render E network cluster s).0 ≡ ok (config, calico_chart)
        → faults s ≤ n
        → (k : ℕ) × (t : E.seed.State) × (now : ℕ) × (k ≤ n)
          × (retried n (reconcile E network cluster) s ≡ (ok tt, t))
          × (view t
              ≡ committed network calico_chart now (view (after k (reconcile E network cluster) s)))
    reconcile-retried network cluster n s {config} {calico_chart} e h =
        let (k, t, (le, tried, last)) =
          retried-last faults n (reconcile E network cluster) s
            (reconcile-Progresses network cluster s e) h in
        let u = after k (reconcile E network cluster) s in
        let (_, a, now, rendered, p) = reconcile-committed E L network cluster u last in
        let same = ok-injective (sym rendered ∙ render-render E network cluster u s ∙ e) in
        (k, t, now, le, tried, p ∙ ap (λ x. committed network x.1 now (view u)) same)

    -- Where a state has at most `n` failures left, one of a deletion and `n` repetitions ends well, and so
    -- does one of a migration and `n` repetitions. The seed is then as a deletion or a migration leaves
    -- what the `k` attempts before it have left: with all taken that is to be taken, and after a migration
    -- with the objects in the shoot as those attempts have left them.
    pub delete-retried :
        (network : Network) (cluster : Cluster) (n : ℕ) (s : E.seed.State)
        → faults s ≤ n
        → ((k : ℕ) × (t : E.seed.State) × (k ≤ n)
            × (retried n (delete E network cluster) s ≡ (ok tt, t))
            × (view t ≡ deleted network (view (after k (delete E network cluster) s))))
          × ((k : ℕ) × (t : E.seed.State) × (k ≤ n)
              × (retried n (migrate E network cluster) s ≡ (ok tt, t))
              × (view t ≡ migrated network (view (after k (migrate E network cluster) s))))
    delete-retried network cluster n s h =
        let (k, t, (le, tried, last)) =
          retried-last faults n (delete E network cluster) s (delete-Progresses network cluster)
            h in
        let (k', t', (le', tried', last')) =
          retried-last faults n (migrate E network cluster) s (migrate-Progresses network cluster)
            h in
        (
          (k, t, le, tried, delete-deleted E L network cluster last),
          (k', t', le', tried', migrate-migrated E L network cluster last'),
        )
