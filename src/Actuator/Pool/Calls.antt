-- ===== src/Actuator/Pool/Calls.antt =====
-- Every operation is its calls.
use gardener_extension_netwo.Prelude.{◌≡◌, refl, ◌∙◌, List, [], ◌∷◌}
use gardener_extension_netwo.Prelude.Result.{Result, ok, err, panic, ◌>>=◌}
use gardener_extension_netwo.Gardener.{Bytes, Network, Cluster}
use gardener_extension_netwo.Actuator.Seed.{Call, Seed, Action, lift, continue, ◌>>◌}
use gardener_extension_netwo.Actuator.Seed.Script.{run}
use gardener_extension_netwo.Actuator.Environment.{Environment}
use gardener_extension_netwo.Actuator.Reconcile.{render}
use gardener_extension_netwo.Actuator.Reconcile.Rendered.{reconcile-run}
use gardener_extension_netwo.Actuator.Reconcile.Desired.{reconcile_calls}
use gardener_extension_netwo.Actuator.Delete.{restore}
use gardener_extension_netwo.Actuator.Delete.Gone.{delete-run, migrate-run}
use gardener_extension_netwo.Actuator.Attempts.{
  Operation, reconciles, deletes, migrates, restores, operate,
}
use gardener_extension_netwo.Actuator.Pool.{rendering, operation_calls, attempt}

-- Calls in sequence, up to the first that does not succeed.
abbrev pub attempts : (S : Seed) → List Call → Action S.State (Unit {0})
attempts S [] = lift (ok tt)
attempts S (c ∷ cs) = attempt S c >> attempts S cs

-- The operation renders, and then makes its calls.
abbrev pub IsCalls : Environment → Operation → Network → Cluster → Type 0
IsCalls E op network cluster =
    (s : E.seed.State)
    → operate E op network cluster s
      ≡ continue (rendering E op network cluster s) s
          (λ calico_chart. attempts E.seed (operation_calls op network calico_chart))

module _ (E : Environment) (network : Network) (cluster : Cluster) where
  continue-rendered :
      {A : Type 0} (r : Result (A × Bytes)) (s : E.seed.State)
      → continue r s (λ (config, calico_chart). run E.seed (reconcile_calls network calico_chart))
        ≡ continue
            (r >>= λ (config, calico_chart). ok calico_chart)
            s
            (λ calico_chart. attempts E.seed (reconcile_calls network calico_chart))
  unfolding run
  continue-rendered (ok (config, calico_chart)) s = refl
  continue-rendered (err e) s = refl
  continue-rendered (panic e) s = refl

  pub operate-attempts : (op : Operation) → IsCalls E op network cluster
  unfolding operate run restore
  operate-attempts reconciles s =
      reconcile-run E network cluster s ∙ continue-rendered (render E network cluster s).0 s
  operate-attempts restores s =
      reconcile-run E network cluster s ∙ continue-rendered (render E network cluster s).0 s
  operate-attempts deletes s = delete-run E network cluster s
  operate-attempts migrates s = migrate-run E network cluster s
