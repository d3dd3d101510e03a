-- ===== src/Actuator/Attempts.antt =====
-- Operations however they end: on a seed where a call that fails may or may not have had its effect.
pub mod Elsewhere
use gardener_extension_netwo.Prelude.{◌≡◌, sym, subst, ℕ, ◌⊎◌, inl, inr, List, [], ◌∷◌, Every, true}
use gardener_extension_netwo.Prelude.Result.{Result, ok, err, panic}
use gardener_extension_netwo.Gardener.{Network, Cluster}
use gardener_extension_netwo.Actuator.Seed.{Call, delete_chart, Seed, Action, continue, ◌>>◌}
use gardener_extension_netwo.Actuator.Seed.Script.{run}
use gardener_extension_netwo.Actuator.Seed.View.{View, change}
use gardener_extension_netwo.Actuator.Environment.{Environment}
use gardener_extension_netwo.Actuator.Monitoring.{calico_control_plane_monitoring_chart}
use gardener_extension_netwo.Actuator.Reconcile.{render, reconcile}
use gardener_extension_netwo.Actuator.Reconcile.Desired.{reconcile_calls}
use gardener_extension_netwo.Actuator.Reconcile.Rendered.{reconcile-run}
use gardener_extension_netwo.Actuator.Delete.{delete, migrate, restore}
use gardener_extension_netwo.Actuator.Delete.Gone.{delete_calls, remove_monitoring, delete-run}

-- A call has its whole effect or none, whatever it returns.
pub record IsAtomic (S : Seed) (view : S.State → View) : Type 0 where
  pub attempted :
      (c : Call) (s : S.State)
      → (view (S.perform c s).1 ≡ view s)
        ⊎ ((now : ℕ) × (view (S.perform c s).1 ≡ change c now (view s)))

-- The methods of the actuator.
pub data Operation : Type 0 where
  reconciles deletes migrates restores : Operation

unfoldable pub operate :
    (E : Environment) → Operation → Network → Cluster → Action E.seed.State (Unit {0})
operate E reconciles = reconcile E
operate E deletes = delete E
operate E migrates = migrate E
operate E restores = restore E

-- One operation after the other, whether they end well or not.
unfoldable pub operate_all :
    (E : Environment) → List (Operation × Network × Cluster) → E.seed.State → E.seed.State
operate_all E [] s = s
operate_all E ((op, network, cluster) ∷ rest) s =
    operate_all E rest (operate E op network cluster s).1

-- What the call keeps.
abbrev pub Keeps : (View → Type 0) → Call → Type 0
Keeps P c = (now : ℕ) (v : View) → P v → P (change c now v)

module _ (S : Seed) {view : S.State → View} (A : IsAtomic S view) (P : View → Type 0) where
  pub perform-Keeps : (c : Call) (s : S.State) → Keeps P c → P (view s) → P (view (S.perform c s).1)
  perform-Keeps c s keeps p = elim (A.attempted c s) [
    | inl same ↦ subst P (sym same) p
    | inr (now, changed) ↦ subst P (sym changed) (keeps now (view s) p)
  ]

  continue-Keeps :
      {B C : Type 0} (r : Result B) (s : S.State) (f : B → Action S.State C)
      → P (view s)
      → ((b : B) → P (view (f b s).1))
      → P (view (continue r s f).1)
  continue-Keeps (ok b) s f p next = next b
  continue-Keeps (err e) s f p next = p
  continue-Keeps (panic e) s f p next = p

  run-Keeps :
      (cs : List Call) (s : S.State) → Every (Keeps P) cs → P (view s) → P (view (run S cs s).1)
  unfolding run
  run-Keeps [] s keeps p = p
  run-Keeps (c ∷ cs) s (keeps, rest) p =
      let q = perform-Keeps c s keeps p in
      continue-Keeps (S.perform c s).0 (S.perform c s).1 (λ _. run S cs) q
        λ _. run-Keeps cs (S.perform c s).1 rest q

module _ (E : Environment) {view : E.seed.State → View} (A : IsAtomic E.seed view)
    (P : View → Type 0) (network : Network) (cluster : Cluster) (s : E.seed.State) where
  pub reconcile-Keeps :
      ((calico_chart : List ℕ) → Every (Keeps P) (reconcile_calls network calico_chart))
      → P (view s)
      → P (view (reconcile E network cluster s).1)
  reconcile-Keeps keeps p = rw (reconcile-run E network cluster s) (
      continue-Keeps E.seed A P (render E network cluster s).0 s _ p λ (config, calico_chart).
        run-Keeps E.seed A P (reconcile_calls network calico_chart) s (keeps calico_chart) p)

  pub delete-Keeps :
      Keeps P (delete_chart calico_control_plane_monitoring_chart network.namespace)
      → Every (Keeps P) (delete_calls network)
      → P (view s)
      → P (view (delete E network cluster s).1)
  delete-Keeps monitoring keeps p =
      let q = perform-Keeps E.seed A P _ s monitoring p in
      rw (delete-run E network cluster s) (
        continue-Keeps E.seed A P (remove_monitoring E network cluster s).0
          (remove_monitoring E network cluster s).1 (λ _. run E.seed (delete_calls network)) q
          λ _. run-Keeps E.seed A P (delete_calls network) _ keeps q)
