-- ===== src/Actuator/Pool/Serial.antt =====
-- What the workers do in a namespace is what one worker does there alone.
use gardener_extension_netwo.Prelude.{
  ◌≡◌, refl, sym, subst, ◌⊎◌, inl, inr, ℕ, String, false, List, [], ◌∷◌, ◌==◌, Every, eq_iff,
  eq_self, Bool-cases,
}
use gardener_extension_netwo.Prelude.Result.{Result, ok, err, panic}
use gardener_extension_netwo.Gardener.{Bytes, Network, Cluster}
use gardener_extension_netwo.Calico.{monitoring_name}
use gardener_extension_netwo.Actuator.Seed.{Call, delete_chart, Seed}
use gardener_extension_netwo.Actuator.Seed.View.{View, IsLawful, change}
use gardener_extension_netwo.Actuator.Seed.Places.{
  place, Same, Same-refl, Same-trans, IsHere, change-away,
}
use gardener_extension_netwo.Actuator.Environment.{Environment}
use gardener_extension_netwo.Actuator.Attempts.{
  IsAtomic, Operation, reconciles, deletes, migrates, restores,
}
use gardener_extension_netwo.Actuator.Concurrency.{change-here}
use gardener_extension_netwo.Actuator.Pool.Calls.{IsCalls, operate-attempts}
use gardener_extension_netwo.Actuator.Pool.{
  rendering, operation_calls, attempt, Worker, idle, working, finished, failed, IsFree, after_call,
  Pool, Step, begins, calls, ends, Reach, here, next,
}

-- One worker, in namespace `n` of a seed that looked like `v` at first: its operations one after the other,
-- each of whose calls has its effect, but for the last before an error, which may have it or not.
pub data Alone (E : Environment) (n : String) (v : View) : Worker → View → Type 0 where
  not_begun : Alone E n v idle v
  begun :
      (op : Operation) (network : Network) (cluster : Cluster) (s : E.seed.State)
      {calico_chart : Bytes} {worker : Worker} {w : View}
      → Alone E n v worker w
      → IsFree worker
      → network.namespace ≡ n
      → rendering E op network cluster s ≡ ok calico_chart
      → Alone E n v (working op network calico_chart (operation_calls op network calico_chart)) w
  called :
      (now : ℕ) {op : Operation} {network : Network} {calico_chart : Bytes} {c : Call}
      {cs : List Call} {w : View}
      → Alone E n v (working op network calico_chart (c ∷ cs)) w
      → Alone E n v (working op network calico_chart cs) (change c now w)
  failed_early :
      {op : Operation} {network : Network} {calico_chart : Bytes} {c : Call} {cs : List Call}
      {w : View}
      → Alone E n v (working op network calico_chart (c ∷ cs)) w
      → Alone E n v failed w
  failed_late :
      (now : ℕ) {op : Operation} {network : Network} {calico_chart : Bytes} {c : Call}
      {cs : List Call} {w : View}
      → Alone E n v (working op network calico_chart (c ∷ cs)) w
      → Alone E n v failed (change c now w)
  ended :
      {op : Operation} {network : Network} {calico_chart : Bytes} {w : View}
      → Alone E n v (working op network calico_chart []) w
      → Alone E n v (finished op network calico_chart) w

-- A chart that is deleted is of one object.
abbrev IsSingle : Call → Type 0
IsSingle (delete_chart c n) = c.objects ≡ ("ConfigMap", monitoring_name) ∷ []
IsSingle _ = Unit

abbrev IsOurs : String → Call → Type 0
IsOurs n c = IsHere n c × IsSingle c

operation_calls-Every :
    (op : Operation) (network : Network) (calico_chart : Bytes)
    → Every (IsOurs network.namespace) (operation_calls op network calico_chart)
operation_calls-Every reconciles network calico_chart =
    ((refl, tt), ((refl, tt), ((refl, tt), ((refl, tt), tt))))
operation_calls-Every restores network calico_chart =
    ((refl, tt), ((refl, tt), ((refl, tt), ((refl, tt), tt))))
operation_calls-Every deletes network calico_chart =
    ((refl, refl), ((refl, tt), ((refl, tt), ((refl, tt), tt))))
operation_calls-Every migrates network calico_chart =
    ((refl, tt), ((refl, refl), ((refl, tt), ((refl, tt), ((refl, tt), tt)))))

-- The calls that a worker has left.
abbrev left : Worker → List Call
left (working op network calico_chart cs) = cs
left _ = []

module _ {E : Environment} {n : String} {v : View} where
  Alone-Every : {worker : Worker} {w : View} → Alone E n v worker w → Every (IsOurs n) (left worker)
  Alone-Every not_begun = tt
  Alone-Every (begun op network cluster s {calico_chart} a free at _) =
      subst (λ m. Every (IsOurs m) (operation_calls op network calico_chart)) at
        (operation_calls-Every op network calico_chart)
  Alone-Every (called now a) = (Alone-Every a).1
  Alone-Every (failed_early a) = tt
  Alone-Every (failed_late now a) = tt
  Alone-Every (ended a) = tt

  failed-Alone :
      {op : Operation} {network : Network} {calico_chart : Bytes} {c : Call} {cs : List Call}
      {w x y : View}
      → Alone E n v (working op network calico_chart (c ∷ cs)) w
      → Same n w x
      → (y ≡ x) ⊎ ((now : ℕ) × (y ≡ change c now x))
      → (w' : View) × Alone E n v failed w' × Same n w' y
  failed-Alone {w = w} a same (inl e) = (w, failed_early a, subst (Same n w) (sym e) same)
  failed-Alone {c = c} {w = w} {x = x} a same (inr (now, e)) = (
    change c now w,
    failed_late now a,
    subst (Same n (change c now w)) (sym e) (change-here n c now w x (Alone-Every a).0.0 same),
  )

  -- The call that is next, with what it answers and what it makes of the seed.
  call-Alone :
      (op : Operation) (network : Network) (calico_chart : Bytes) (c : Call) (cs : List Call)
      (r : Result (Unit {0})) {w x y : View}
      → Alone E n v (working op network calico_chart (c ∷ cs)) w
      → Same n w x
      → (r ≡ ok tt → (now : ℕ) × (y ≡ change c now x))
      → (y ≡ x) ⊎ ((now : ℕ) × (y ≡ change c now x))
      → (w' : View) × Alone E n v (after_call r op network calico_chart cs) w' × Same n w' y
  call-Alone op network calico_chart c cs (ok _) {w} {x} a same good any =
      let (now, e) = good refl in
      (
        change c now w,
        called now a,
        subst (Same n (change c now w)) (sym e) (change-here n c now w x (Alone-Every a).0.0 same),
      )
  call-Alone op network calico_chart c cs (err e) a same good any = failed-Alone a same any
  call-Alone op network calico_chart c cs (panic e) a same good any = failed-Alone a same any

module _ (S : Seed) {view : S.State → View} (L : IsLawful S view) where
  -- What the answer is that the code takes for success, the call has its effect.
  attempt-change :
      (c : Call) (s : S.State)
      → IsSingle c
      → (attempt S c s).0 ≡ ok tt
      → (now : ℕ) × (view (attempt S c s).1 ≡ change c now (view s))
  attempt-change (delete_chart c n) s single h =
      let t = (S.perform (delete_chart c n) s).1 in
      elim (L.ignore_not_found (S.perform (delete_chart c n) s).0 h) [
        | inl good ↦ L.performed (delete_chart c n) (λ i. (good i, t))
        | inr (e, bad, missing) ↦ L.absent c n single (λ i. (bad i, t)) missing
      ]
  attempt-change c s single h = L.performed c (λ i. (h i, (S.perform c s).1))

module _ (E : Environment) {view : E.seed.State → View} (L : IsLawful E.seed view)
    (A : IsAtomic E.seed view) where
  -- What one worker made of `v` in each namespace alone is what is in it.
  abbrev pub IsSerial : View → Pool E.seed → Type 0
  IsSerial v p = (n : String) → (w : View) × Alone E n v (p.workers n) w × Same n w (view p.state)

  moved-Same :
      (n : String) (c : Call) {x y : View}
      → (n == place c) ≡ false
      → (y ≡ x) ⊎ ((now : ℕ) × (y ≡ change c now x))
      → Same n x y
  moved-Same n c {x} other (inl e) = subst (Same n x) (sym e) (Same-refl n x)
  moved-Same n c {x} other (inr (now, e)) = subst (Same n x) (sym e) (change-away n c now x other)

  Step-IsSerial : {v : View} {p q : Pool E.seed} → IsSerial v p → Step E p q → IsSerial v q
  Step-IsSerial {v} i (begins op network cluster {calico_chart} p free e) n =
      let (w, a, same) = i n in
      elim (Bool-cases (n == network.namespace)) [
        | inl at ↦ (
          w,
          rw at (
              begun op network cluster p.state a
                (subst (λ m. IsFree (p.workers m)) (sym ((eq_iff n network.namespace).0 at)) free)
                (sym ((eq_iff n network.namespace).0 at)) e),
          same,
        )
        | inr other ↦ (w, rw other a, same)
      ]
  Step-IsSerial {v} i (calls m op network calico_chart c cs p busy) n =
      let (w, a, same) = i m in
      let a = subst (λ worker. Alone E m v worker w) busy a in
      let ((at, single), _) = Alone-Every a in
      elim (Bool-cases (n == m)) [
        | inl alike ↦ rw ((eq_iff n m).0 alike) (
            rw (eq_self m) (
              call-Alone op network calico_chart c cs (attempt E.seed c p.state).0 a same
                (attempt-change E.seed L c p.state single) (A.attempted c p.state)))
        | inr other ↦
            let (w', a', same') = i n in
            (
              w',
              rw other a',
              Same-trans n same' (moved-Same n c (rw at other) (A.attempted c p.state)),
            )
      ]
  Step-IsSerial {v} i (ends m op network calico_chart p busy) n =
      let (w, a, same) = i m in
      elim (Bool-cases (n == m)) [
        | inl alike ↦
            rw ((eq_iff n m).0 alike)
              (rw (eq_self m) (w, ended (subst (λ worker. Alone E m v worker w) busy a), same))
        | inr other ↦ let (w', a', same') = i n in (w', rw other a', same')
      ]

  Reach-IsSerial_from :
      {start p : Pool E.seed}
      → ((n : String) → start.workers n ≡ idle)
      → Reach E start p
      → IsSerial (view start.state) p
  Reach-IsSerial_from {start} free here n =
      (view start.state, rw (free n) not_begun, Same-refl n (view start.state))
  Reach-IsSerial_from free (next r step) n = Step-IsSerial (Reach-IsSerial_from free r) step n

  -- Every operation renders and then makes its calls, up to the first that does not succeed. Workers that
  -- make them at the same time, in any order, where a call that fails has its effect or not, leave in
  -- each namespace what one worker leaves there alone, one operation after the other.
  pub Reach-IsSerial :
      {start p : Pool E.seed}
      → ((n : String) → start.workers n ≡ idle)
      → Reach E start p
      → ((op : Operation) (network : Network) (cluster : Cluster) → IsCalls E op network cluster)
        × ((n : String)
            → (w : View) × Alone E n (view start.state) (p.workers n) w × Same n w (view p.state))
  Reach-IsSerial free r =
      (λ op network cluster. operate-attempts E network cluster op, Reach-IsSerial_from free r)
