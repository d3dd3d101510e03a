-- ===== src/Actuator/Phases/Refined.antt =====
-- The operations of the actuator implement the phases.
use gardener_extension_netwo.Prelude.{
  ◌≡◌, refl, sym, ◌∙◌, subst, inl, inr, ℕ, String, false, [], ◌∷◌, ◌==◌, eq_iff, eq_self,
  Bool-cases,
}
use gardener_extension_netwo.Prelude.Result.{ok}
use gardener_extension_netwo.Gardener.{Bytes, Network, Cluster}
use gardener_extension_netwo.Actuator.Seed.View.{View, IsLawful}
use gardener_extension_netwo.Actuator.Seed.Places.{Same}
use gardener_extension_netwo.Actuator.Environment.{Environment}
use gardener_extension_netwo.Actuator.Reconcile.{calico_config_secret_name, render, reconcile}
use gardener_extension_netwo.Actuator.Reconcile.Desired.{committed, reconcile-committed}
use gardener_extension_netwo.Actuator.Delete.{restore}
use gardener_extension_netwo.Actuator.Delete.Gone.{
  deleted, migrated, delete-deleted, migrate-migrated,
}
use gardener_extension_netwo.Actuator.Isolation.{committed-Same, deleted-Same, migrated-Same}
use gardener_extension_netwo.Actuator.Attempts.{
  Operation, reconciles, deletes, migrates, restores, operate,
}
use gardener_extension_netwo.Actuator.Phases.{
  Phase, untouched, absent, installed, Refers, Holds, Phases, installed_by, phase_after, History,
  begun, operated,
}

pub Same-Holds : (n : String) (p : Phase) {v w : View} → Same n v w → Holds n p v → Holds n p w
Same-Holds n untouched same h = tt
Same-Holds n absent same (a, b, c) = (
  same.secrets calico_config_secret_name ∙ a,
  same.managed_resources calico_config_secret_name ∙ b,
  same.chart_objects _ _ ∙ c,
)
Same-Holds n (installed chart) same (a, b, c) = (
  same.secrets calico_config_secret_name ∙ a,
  subst (λ m. Refers m (calico_config_secret_name ∷ []))
      (sym (same.managed_resources calico_config_secret_name)) b,
  same.chart_objects _ _ ∙ c,
)

pub committed-Holds :
    (network : Network) (calico_chart : Bytes) (now : ℕ) (v : View)
    → Holds network.namespace (installed calico_chart) (committed network calico_chart now v)
committed-Holds network calico_chart now v = rw (eq_self network.namespace) (refl, refl, refl)

pub deleted-Holds :
    (network : Network) (v : View) → Holds network.namespace absent (deleted network v)
deleted-Holds network v = rw (eq_self network.namespace) (refl, refl, refl)

migrated-Holds :
    (network : Network) (v : View) → Holds network.namespace absent (migrated network v)
migrated-Holds network v = rw (eq_self network.namespace) (refl, refl, refl)

module _ (E : Environment) {view : E.seed.State → View} (L : IsLawful E.seed view) where
  reconcile-Holds :
      (network : Network) (cluster : Cluster) (s : E.seed.State) {t : E.seed.State}
      → reconcile E network cluster s ≡ (ok tt, t)
      → Holds network.namespace (installed_by (render E network cluster s).0) (view t)
  reconcile-Holds network cluster s h =
      let (_, calico_chart, now, rendered, p) = reconcile-committed E L network cluster s h in
      rw (rendered, p) (committed-Holds network calico_chart now (view s))

  operate-Holds :
      (op : Operation) (network : Network) (cluster : Cluster) (s : E.seed.State) {t : E.seed.State}
      → operate E op network cluster s ≡ (ok tt, t)
      → Holds network.namespace (phase_after E op network cluster s) (view t)
  unfolding operate restore
  operate-Holds reconciles network cluster s h = reconcile-Holds network cluster s h
  operate-Holds restores network cluster s h = reconcile-Holds network cluster s h
  operate-Holds deletes network cluster s h =
      rw (delete-deleted E L network cluster h) (deleted-Holds network (view s))
  operate-Holds migrates network cluster s h =
      rw (migrate-migrated E L network cluster h) (migrated-Holds network (view s))

  reconcile-elsewhere :
      (n : String) (network : Network) (cluster : Cluster) {s t : E.seed.State}
      → (n == network.namespace) ≡ false
      → reconcile E network cluster s ≡ (ok tt, t)
      → Same n (view s) (view t)
  reconcile-elsewhere n network cluster {s} other h =
      let (_, calico_chart, now, _, p) = reconcile-committed E L network cluster s h in
      rw p (committed-Same n network other (view s) calico_chart now)

  operate-elsewhere :
      (n : String) (op : Operation) (network : Network) (cluster : Cluster) {s t : E.seed.State}
      → (n == network.namespace) ≡ false
      → operate E op network cluster s ≡ (ok tt, t)
      → Same n (view s) (view t)
  unfolding operate restore
  operate-elsewhere n reconciles network cluster other h =
      reconcile-elsewhere n network cluster other h
  operate-elsewhere n restores network cluster other h =
      reconcile-elsewhere n network cluster other h
  operate-elsewhere n deletes network cluster {s} other h =
      rw (delete-deleted E L network cluster h) (deleted-Same n network other (view s))
  operate-elsewhere n migrates network cluster {s} other h =
      rw (migrate-migrated E L network cluster h) (migrated-Same n network other (view s))

  -- Operations that end well, on `Network`s of any namespaces and in any order, keep the seed in step with
  -- the phases: if it held in every namespace what the phases said at the start, it does so at the
  -- end, when the phase of a namespace is that of the last operation there.
  pub History-Holds :
      {start : Phases} {s : E.seed.State} {phases : Phases} {t : E.seed.State}
      → ((n : String) → Holds n (start n) (view s))
      → History E start s phases t
      → (n : String) → Holds n (phases n) (view t)
  History-Holds h begun n = h n
  History-Holds h (operated op network cluster {phases} {t} {u} before done) n =
      elim (Bool-cases (n == network.namespace)) [
        | inl here ↦
            rw here
              (rw ((eq_iff n network.namespace).0 here) (operate-Holds op network cluster t done))
        | inr other ↦ rw other (
            Same-Holds n (phases n) (operate-elsewhere n op network cluster other done)
              (History-Holds h before n))
      ]
