-- ===== src/Actuator/Pool/Settled.antt =====
-- What is in a namespace when the last operation there has ended well, whatever runs in the others.
use mathlib.Core.List.{append_assoc, append-nil}
use gardener_extension_netwo.Prelude.{
  ◌≡◌, refl, sym, ◌∙◌, ap, subst, ℕ, String, true, List, [], ◌∷◌, ◌++◌,
}
use gardener_extension_netwo.Prelude.Result.{ok}
use gardener_extension_netwo.Gardener.{Bytes, Network, Cluster}
use gardener_extension_netwo.Actuator.Seed.{Call, set_keep_objects}
use gardener_extension_netwo.Actuator.Seed.Script.{Changed}
use gardener_extension_netwo.Actuator.Seed.View.{View, IsLawful, change}
use gardener_extension_netwo.Actuator.Environment.{Environment}
use gardener_extension_netwo.Actuator.Delete.Gone.{delete_calls-deleted}
use gardener_extension_netwo.Actuator.Reconcile.{calico_config_secret_name}
use gardener_extension_netwo.Actuator.Reconcile.Desired.{reconcile_calls}
use gardener_extension_netwo.Actuator.Attempts.{
  IsAtomic, Operation, reconciles, deletes, migrates, restores,
}
use gardener_extension_netwo.Actuator.Phases.{Phase, absent, installed, Holds}
use gardener_extension_netwo.Actuator.Phases.Refined.{Same-Holds, committed-Holds, deleted-Holds}
use gardener_extension_netwo.Actuator.Pool.{
  rendering, operation_calls, Worker, idle, failed, working, finished, Pool, Reach,
}
use gardener_extension_netwo.Actuator.Pool.Calls.{IsCalls, operate-attempts}
use gardener_extension_netwo.Actuator.Pool.Serial.{
  Alone, not_begun, begun, called, failed_early, failed_late, ended, Reach-IsSerial,
}

-- The phase that an operation sets.
abbrev pub phase_of : Operation → Bytes → Phase
phase_of reconciles calico_chart = installed calico_chart
phase_of restores calico_chart = installed calico_chart
phase_of deletes calico_chart = absent
phase_of migrates calico_chart = absent

Changed-snoc :
    (c : Call) (now : ℕ) (cs : List Call) (u w : View)
    → Changed cs u w
    → Changed (cs ++ c ∷ []) u (change c now w)
Changed-snoc c now [] u w h = (now, ap (change c now) h)
Changed-snoc c now (d ∷ ds) u w (then_, h) = (then_, Changed-snoc c now ds (change d then_ u) w h)

reconcile_calls-Holds :
    (network : Network) (calico_chart : Bytes) (u w : View)
    → Changed (reconcile_calls network calico_chart) u w
    → Holds network.namespace (installed calico_chart) w
reconcile_calls-Holds network calico_chart u w (_, (_, (_, (now, p)))) =
    subst (Holds network.namespace (installed calico_chart)) (sym p)
      (committed-Holds network calico_chart now u)

deletes-Holds :
    (network : Network) (calico_chart : Bytes) (u w : View)
    → Changed (operation_calls deletes network calico_chart) u w
    → Holds network.namespace absent w
deletes-Holds network calico_chart u w (_, (_, (_, (_, p)))) =
    subst (Holds network.namespace absent) (sym (p ∙ delete_calls-deleted network u))
      (deleted-Holds network u)

-- All calls of an operation set its phase.
Changed-Holds :
    (op : Operation) (network : Network) (calico_chart : Bytes) (u w : View)
    → Changed (operation_calls op network calico_chart) u w
    → Holds network.namespace (phase_of op calico_chart) w
Changed-Holds reconciles network calico_chart u w h =
    reconcile_calls-Holds network calico_chart u w h
Changed-Holds restores network calico_chart u w h = reconcile_calls-Holds network calico_chart u w h
Changed-Holds deletes network calico_chart u w h = deletes-Holds network calico_chart u w h
Changed-Holds migrates network calico_chart u w (now, h) =
    deletes-Holds network calico_chart
      (change (set_keep_objects network.namespace calico_config_secret_name true) now u) w h

-- The operation of a worker, how it came by its chart, and how far it is.
abbrev Begun : Environment → String → Operation → Network → Bytes → Type 0
Begun E n op network calico_chart =
    (network.namespace ≡ n)
    × ((cluster : Cluster) × (s : E.seed.State) × (rendering E op network cluster s
          ≡ ok calico_chart))

abbrev Progress : Environment → String → Worker → View → Type 0
Progress E n (working op network calico_chart cs) w =
    Begun E n op network calico_chart
    × ((done : List Call) × (u : View) × (operation_calls op network calico_chart ≡ done ++ cs)
        × Changed done u w)
Progress E n (finished op network calico_chart) w =
    Begun E n op network calico_chart
    × ((u : View) × Changed (operation_calls op network calico_chart) u w)
Progress E n idle w = Unit
Progress E n failed w = Unit

Alone-Progress :
    {E : Environment} {n : String} {v : View} {worker : Worker} {w : View}
    → Alone E n v worker w
    → Progress E n worker w
Alone-Progress not_begun = tt
Alone-Progress (begun op network cluster s {w = w} a free at e) =
    ((at, (cluster, s, e)), ([], w, refl, refl))
Alone-Progress (called now {c = c} {cs = cs} {w = w} a) =
    let (b, (done, u, split, h)) = Alone-Progress a in
    (
      b,
      (
        done ++ c ∷ [],
        u,
        split ∙ sym (append_assoc done (c ∷ []) cs),
        Changed-snoc c now done u w h,
      ),
    )
Alone-Progress (failed_early a) = tt
Alone-Progress (failed_late now a) = tt
Alone-Progress (ended {w = w} a) =
    let (b, (done, u, split, h)) = Alone-Progress a in
    (b, (u, subst (λ cs. Changed cs u w) (sym (split ∙ append-nil done)) h))

module _ (E : Environment) {view : E.seed.State → View} (L : IsLawful E.seed view)
    (A : IsAtomic E.seed view) where
  -- Where the last operation in a namespace has ended well, it was begun with the chart that was rendered for
  -- it, and the namespace is in its phase, whatever the other workers are doing. The operation is the
  -- code's: it renders and then makes those calls, up to the first that does not succeed.
  pub finished-Holds :
      {start p : Pool E.seed} (n : String) {op : Operation} {network : Network}
      {calico_chart : Bytes}
      → ((m : String) → start.workers m ≡ idle)
      → Reach E start p
      → p.workers n ≡ finished op network calico_chart
      → (network.namespace ≡ n)
        × ((cluster : Cluster) × (s : E.seed.State) × (rendering E op network cluster s
              ≡ ok calico_chart)
            × IsCalls E op network cluster)
        × Holds n (phase_of op calico_chart) (view p.state)
  finished-Holds {start} n {op} {network} {calico_chart} free r e =
      let (w, a, same) = (Reach-IsSerial E L A free r).1 n in
      let ((at, (cluster, s, rendered)), (u, h)) =
        Alone-Progress (subst (λ worker. Alone E n (view start.state) worker w) e a) in
      (
        at,
        (cluster, s, rendered, operate-attempts E network cluster op),
        Same-Holds n (phase_of op calico_chart) same (
            subst (λ m. Holds m (phase_of op calico_chart) w) at
              (Changed-Holds op network calico_chart u w h)),
      )
