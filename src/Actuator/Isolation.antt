-- ===== src/Actuator/Isolation.antt =====
-- Sequences of operations on `Network`s, and what they leave alone.
use gardener_extension_netwo.Prelude.{◌≡◌, refl, sym, ℕ, String, false, ◌==◌, subst}
use gardener_extension_netwo.Prelude.Result.{ok}
use gardener_extension_netwo.Gardener.{Bytes, Network, Cluster}
use gardener_extension_netwo.Actuator.Seed.View.{View, IsLawful}
use gardener_extension_netwo.Actuator.Seed.Places.{Same, Same-trans}
use gardener_extension_netwo.Actuator.Environment.{Environment}
use gardener_extension_netwo.Actuator.Reconcile.{reconcile}
use gardener_extension_netwo.Actuator.Reconcile.Desired.{committed, reconcile-committed}
use gardener_extension_netwo.Actuator.Delete.{delete, migrate, restore}
use gardener_extension_netwo.Actuator.Delete.Gone.{
  deleted, migrated, delete-deleted, migrate-migrated,
}

-- Operations that end well, one after the other, on `Network`s of namespaces other than `n`.
pub data Elsewhere (E : Environment) (n : String) (s : E.seed.State) : E.seed.State → Type 0 where
  none_yet : Elsewhere E n s s
  reconciled :
      (network : Network) (cluster : Cluster) {t u : E.seed.State}
      → Elsewhere E n s t
      → (n == network.namespace) ≡ false
      → reconcile E network cluster t ≡ (ok tt, u)
      → Elsewhere E n s u
  restored :
      (network : Network) (cluster : Cluster) {t u : E.seed.State}
      → Elsewhere E n s t
      → (n == network.namespace) ≡ false
      → restore E network cluster t ≡ (ok tt, u)
      → Elsewhere E n s u
  was_deleted :
      (network : Network) (cluster : Cluster) {t u : E.seed.State}
      → Elsewhere E n s t
      → (n == network.namespace) ≡ false
      → delete E network cluster t ≡ (ok tt, u)
      → Elsewhere E n s u
  was_migrated :
      (network : Network) (cluster : Cluster) {t u : E.seed.State}
      → Elsewhere E n s t
      → (n == network.namespace) ≡ false
      → migrate E network cluster t ≡ (ok tt, u)
      → Elsewhere E n s u

module _ (n : String) (network : Network) (other : (n == network.namespace) ≡ false)
    (v : View) where
  pub committed-Same : (a : Bytes) (now : ℕ) → Same n v (committed network a now v)
  committed-Same a now = record {
    secrets = λ k. rw other;
    managed_resources = λ k. rw other;
    shoot_objects = λ k. rw other;
    chart_objects = λ type k. rw other;
    statuses = λ k. rw other;
  }

  pub deleted-Same : Same n v (deleted network v)
  deleted-Same = record {
    secrets = λ k. rw other;
    managed_resources = λ k. rw other;
    shoot_objects = λ k. rw other;
    chart_objects = λ type k. rw other;
    statuses = λ k. refl;
  }

  pub migrated-Same : Same n v (migrated network v)
  migrated-Same = record {
    secrets = λ k. rw other;
    managed_resources = λ k. rw other;
    shoot_objects = λ k. refl;
    chart_objects = λ type k. rw other;
    statuses = λ k. refl;
  }

module _ (E : Environment) {view : E.seed.State → View} (L : IsLawful E.seed view)
    (n : String) where
  reconcile-Same :
      (network : Network) (cluster : Cluster) {s t : E.seed.State}
      → (n == network.namespace) ≡ false
      → reconcile E network cluster s ≡ (ok tt, t)
      → Same n (view s) (view t)
  reconcile-Same network cluster {s} other h =
      let (_, a, now, _, p) = reconcile-committed E L network cluster s h in
      subst (λ w. Same n (view s) w) (sym p) (committed-Same n network other (view s) a now)

  -- However many operations end well on `Network`s of other namespaces: in namespace `n` all is as it
  -- was.
  pub Elsewhere-Same : {s t : E.seed.State} → Elsewhere E n s t → Same n (view s) (view t)
  unfolding restore
  Elsewhere-Same none_yet = record {
    secrets = λ k. refl;
    managed_resources = λ k. refl;
    shoot_objects = λ k. refl;
    chart_objects = λ type k. refl;
    statuses = λ k. refl;
  }
  Elsewhere-Same (reconciled network cluster before other h) =
      Same-trans n (Elsewhere-Same before) (reconcile-Same network cluster other h)
  Elsewhere-Same (restored network cluster before other h) =
      Same-trans n (Elsewhere-Same before) (reconcile-Same network cluster other h)
  Elsewhere-Same (was_deleted network cluster {t} before other h) =
      Same-trans n (Elsewhere-Same before) (
        subst (λ w. Same n (view t) w) (sym (delete-deleted E L network cluster h))
          (deleted-Same n network other (view t)))
  Elsewhere-Same (was_migrated network cluster {t} before other h) =
      Same-trans n (Elsewhere-Same before) (
        subst (λ w. Same n (view t) w) (sym (migrate-migrated E L network cluster h))
          (migrated-Same n network other (view t)))
