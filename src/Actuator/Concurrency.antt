-- ===== src/Actuator/Concurrency.antt =====
-- Operations that run at the same time, their calls interleaved.
use mathlib.Core.Path.{fun_ext}
use gardener_extension_netwo.Prelude.{
  arith, eq_iff, ◌≡◌, refl, sym, subst, ℕ, String, false, ◌==◌, List, [], ◌∷◌, Every, Option,
}
use gardener_extension_netwo.Prelude.Result.{ok}
use gardener_extension_netwo.Gardener.{Bytes, Network}
use gardener_extension_netwo.Api.Types.{NetworkConfig}
use gardener_extension_netwo.Actuator.Seed.{Call}
use gardener_extension_netwo.Actuator.Seed.Script.{run, Changed, run-Changed}
use gardener_extension_netwo.Actuator.Seed.View.{View, IsLawful, change}
use gardener_extension_netwo.Actuator.Seed.Places.{
  Same, Same-refl, Same-trans, IsHere, IsAway, change-away, change-local,
}
use gardener_extension_netwo.Actuator.Environment.{Environment}
use gardener_extension_netwo.Actuator.Reconcile.{commit}
use gardener_extension_netwo.Actuator.Reconcile.Desired.{committed, reconcile_calls, commit-run}

-- `es` has the calls of `cs` and those of `ds`, each in their order.
pub data Interleaved : List Call → List Call → List Call → Type 0 where
  none_left : Interleaved [] [] []
  first :
      (c : Call) {cs ds es : List Call} → Interleaved cs ds es → Interleaved (c ∷ cs) ds (c ∷ es)
  second :
      (d : Call) {cs ds es : List Call} → Interleaved cs ds es → Interleaved cs (d ∷ ds) (d ∷ es)

pub Interleaved-swap : {cs ds es : List Call} → Interleaved cs ds es → Interleaved ds cs es
Interleaved-swap none_left = none_left
Interleaved-swap (first c x) = second c (Interleaved-swap x)
Interleaved-swap (second d x) = first d (Interleaved-swap x)

module _ (n : String) where
  pub change-here :
      (c : Call) (now : ℕ) (v w : View)
      → IsHere n c
      → Same n v w
      → Same n (change c now v) (change c now w)
  change-here c now v w here same =
      subst (λ m. Same m v w → Same m (change c now v) (change c now w)) here
        (change-local c now v w) same

  -- In the namespace of the calls `cs`, the interleaved calls do what the calls `cs` do alone.
  pub Interleaved-Changed :
      {cs ds es : List Call} {u v w : View}
      → Interleaved cs ds es
      → Every (IsHere n) cs
      → Every (IsAway n) ds
      → Same n u v
      → Changed es v w
      → (x : View) × Changed cs u x × Same n x w
  Interleaved-Changed {u = u} none_left here away same h =
      (u, refl, subst (λ w. Same n u w) (sym h) same)
  Interleaved-Changed {u = u} {v = v} (first c x) (at, here) away same (now, h) =
      let (y, changed, s) = Interleaved-Changed x here away (change-here c now u v at same) h in
      (y, (now, changed), s)
  Interleaved-Changed {v = v} (second d x) here (at, away) same (now, h) =
      Interleaved-Changed x here away (Same-trans n same (change-away n d now v at)) h

away-swap : (m n : String) → (m == n) ≡ false → (n == m) ≡ false
away-swap m n h = ground (arith, eq_iff m n, eq_iff n m)

module _ (E : Environment) {view : E.seed.State → View} (L : IsLawful E.seed view) where
  -- The calls of a reconciliation, among those of an operation elsewhere.
  reconcile_calls-among :
      (network : Network) (calico_chart : Bytes) {ds es : List Call} (s : E.seed.State)
      {t : E.seed.State}
      → Interleaved (reconcile_calls network calico_chart) ds es
      → Every (IsAway network.namespace) ds
      → run E.seed es s ≡ (ok tt, t)
      → (now : ℕ) × Same network.namespace (committed network calico_chart now (view s)) (view t)
  reconcile_calls-among network calico_chart {ds} {es} s {t} x away h =
      let n = network.namespace in
      let (w, (_, (_, (_, (now, p)))), same) =
        Interleaved-Changed n {u = view s} {v = view s} {w = view t} x
          (refl, (refl, (refl, (refl, tt)))) away (Same-refl n (view s))
          (run-Changed E.seed L es s t h) in
      (now, subst (λ w. Same n w (view t)) p same)

  -- Two reconciliations of `Network`s in different namespaces, with their calls to the seed interleaved in
  -- any way and all of them successful, leave in each namespace what the one reconciliation leaves
  -- there alone.
  pub concurrent-committed :
      (a b : Network) (config config' : Option NetworkConfig) (chart chart' : Bytes)
      {es : List Call} (s : E.seed.State) {t : E.seed.State}
      → (a.namespace == b.namespace) ≡ false
      → Interleaved (reconcile_calls a chart) (reconcile_calls b chart') es
      → run E.seed es s ≡ (ok tt, t)
      → (commit E a config chart ≡ run E.seed (reconcile_calls a chart))
        × (commit E b config' chart' ≡ run E.seed (reconcile_calls b chart'))
        × ((m : ℕ) × Same a.namespace (committed a chart m (view s)) (view t))
        × ((m : ℕ) × Same b.namespace (committed b chart' m (view s)) (view t))
  concurrent-committed a b config config' chart chart' s other x h =
      let swapped = away-swap a.namespace b.namespace other in
      (
        fun_ext (commit-run E a config chart),
        fun_ext (commit-run E b config' chart'),
        reconcile_calls-among a chart s x (other, (other, (other, (other, tt)))) h,
        reconcile_calls-among b chart' s (Interleaved-swap x)
            (swapped, (swapped, (swapped, (swapped, tt)))) h,
      )
