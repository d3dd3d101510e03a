-- ===== src/Command/Setup/Watched.antt =====
-- The health check and the actuator: both name the same managed resource.
use gardener_extension_netwo.Prelude.{◌≡◌, String, true, Option, none, is_some, Every, eq_self}
use gardener_extension_netwo.Prelude.Result.{ok}
use gardener_extension_netwo.Gardener.{Network, Cluster}
use gardener_extension_netwo.Actuator.Seed.View.{View, Managed, IsLawful}
use gardener_extension_netwo.Actuator.Environment.{Environment}
use gardener_extension_netwo.Actuator.Reconcile.{reconcile}
use gardener_extension_netwo.Actuator.Reconcile.Desired.{reconcile-committed}
use gardener_extension_netwo.Actuator.Delete.{delete}
use gardener_extension_netwo.Actuator.Delete.Gone.{delete-deleted}
use gardener_extension_netwo.Command.Setup.{ConditionTypeToHealthCheck, health_checks}

-- The managed resource of a health check, for a `Network` in this namespace.
abbrev pub watched : View → String → ConditionTypeToHealthCheck → Option Managed
watched v namespace check = v.managed_resources namespace check.managed_resource

module _ (E : Environment) {view : E.seed.State → View} (L : IsLawful E.seed view) where
  -- After a reconciliation that ends well, the managed resource of every registered health check is
  -- there in the namespace of the `Network`.
  pub reconcile-watched :
      (network : Network) (cluster : Cluster) (s : E.seed.State) {t : E.seed.State}
      → reconcile E network cluster s ≡ (ok tt, t)
      → Every (λ check. is_some (watched (view t) network.namespace check) ≡ true) health_checks
  reconcile-watched network cluster s {t} h =
      let (config, calico_chart, now, _, p) = reconcile-committed E L network cluster s {t = t} h in
      (rw (p, eq_self network.namespace), tt)

  -- After a deletion that ends well, it is there for none of them.
  pub delete-watched :
      (network : Network) (cluster : Cluster) (s : E.seed.State) {t : E.seed.State}
      → delete E network cluster s ≡ (ok tt, t)
      → Every (λ check. watched (view t) network.namespace check ≡ none) health_checks
  delete-watched network cluster s {t} h =
      (rw (delete-deleted E L network cluster {s = s} {t = t} h, eq_self network.namespace), tt)
