-- ===== src/Tests/Actuator/Faults.antt =====
-- The actuator on a seed that fails a number of times, and on one where failed calls have an effect.
use gardener_extension_netwo.Prelude.{
  ◌≡◌, refl, sym, ap, ◌⊎◌, inl, inr, ℕ, zero, suc, ◌≤◌, ◌<◌, arith, Option, none, some, List, [],
  ◌∷◌, false,
}
use gardener_extension_netwo.Prelude.Result.{Error, Result, ok, err, errorf}
use gardener_extension_netwo.Gardener.{Network, Cluster}
use gardener_extension_netwo.Actuator.Seed.{Call, delete_chart, Seed}
use gardener_extension_netwo.Actuator.Seed.View.{View, change, IsLawful}
use gardener_extension_netwo.Actuator.Seed.Places.{Same}
use gardener_extension_netwo.Actuator.Environment.{Environment}
use gardener_extension_netwo.Api.Types.{NetworkConfig}
use gardener_extension_netwo.Api.Decode.{calico_network_config_from_network_resource}
use gardener_extension_netwo.Images.{find_image}
use gardener_extension_netwo.Charts.Generate.{generate_chart_values}
use gardener_extension_netwo.Charts.Marshal.{to_map}
use gardener_extension_netwo.Charts.Values.{image_values, compute_calico_chart_values}
use gardener_extension_netwo.Charts.Render.{render_calico_chart}
use gardener_extension_netwo.Actuator.Reconcile.{
  commit, reconcile, render, provider_config, detect_nodes,
  activate_system_components_node_selector,
}
use gardener_extension_netwo.Actuator.Reconcile.Desired.{committed, reconcile_calls}
use gardener_extension_netwo.Actuator.Delete.{delete, migrate}
use gardener_extension_netwo.Actuator.Delete.Gone.{deleted, migrated}
use gardener_extension_netwo.Actuator.Seed.Script.{run}
use gardener_extension_netwo.Actuator.Retries.{retried, after, outcome, Recovers}
use gardener_extension_netwo.Actuator.Retries.Ends.{reconcile-retried, delete-retried}
use gardener_extension_netwo.Actuator.Concurrency.{
  Interleaved, none_left, first, second, concurrent-committed,
}
use gardener_extension_netwo.Actuator.Attempts.{
  IsAtomic, Operation, reconciles, deletes, migrates, operate_all,
}
use gardener_extension_netwo.Actuator.Attempts.Elsewhere.{operate_all-Same}
use gardener_extension_netwo.Tests.Inputs.{network, cluster, full_config, shoot}
use gardener_extension_netwo.Tests.Actuator.Memory.{
  empty_view, ignore_missing, ignore_missing-eq-ok, environment_with, unlucky, seed_that-IsLawful,
  quiet, missing,
}

-- It refuses a number of calls, and then carries out all.
abbrev refuse : ℕ → Call → View → Result (Unit {0}) × (ℕ × View)
refuse zero c v = (ok tt, (0, change c 0 v))
refuse (suc n) c v = (err (errorf "try again"), (n, v))

abbrev tired : Seed
tired = record {
  State = ℕ × View;
  perform = λ c (n, v). refuse n c v;
  ignore_not_found = ignore_missing;
}

refuse-eq-ok :
    (n : ℕ) (c : Call) (v : View) {t : ℕ × View} → refuse n c v ≡ (ok tt, t) → t.1 ≡ change c 0 v
refuse-eq-ok zero c v h = ap (λ x. x.1.1) (sym h)
refuse-eq-ok (suc n) c v h = cc

-- None of its errors says "not found".
refuse-found :
    (n : ℕ) (c : Call) (v : View) {t : ℕ × View} {e : Error}
    → refuse n c v ≡ (err e, t)
    → e.not_found ≡ false
refuse-found zero c v h = cc
refuse-found (suc n) c v h = ground arith

tired-IsLawful : IsLawful tired (λ (n, v). v)
tired-IsLawful = record {
  performed = λ c {s} h. (0, refuse-eq-ok s.0 c s.1 h);
  absent = λ c n {s} e h m. let f = refuse-found s.0 (delete_chart c n) s.1 h in cc;
  ignore_not_found = ignore_missing-eq-ok;
}

outcome-ok : (c : Call) → outcome tired c (ok tt) ≡ ok tt
outcome-ok c = ground arith

refuse-Recovers :
    (n : ℕ) (c : Call) (v : View)
    → ((outcome tired c (refuse n c v).0 ≡ ok tt) × ((refuse n c v).1.0 ≤ n))
      ⊎ ((refuse n c v).1.0 < n)
refuse-Recovers zero c v = inl (outcome-ok c, omega arith)
refuse-Recovers (suc n) c v = inr (omega arith)

tired-Recovers : Recovers tired (λ (n, v). n)
tired-Recovers = record { called = λ c s. refuse-Recovers s.0 c s.1 }

abbrev slow : Environment
slow = environment_with tired

abbrev worn : ℕ × View
worn = (2, empty_view)

abbrev found : Option NetworkConfig
found = detect_nodes shoot.nodes (some full_config)

slow_render_lem : (render slow network cluster worn).0 ≡ ok (found, 5 ∷ [])
unfolding render provider_config calico_network_config_from_network_resource render_calico_chart
    compute_calico_chart_values generate_chart_values detect_nodes to_map image_values find_image
    activate_system_components_node_selector
slow_render_lem = refl

-- The third attempt ends well.
reconcile-retried_example :
    (k : ℕ) × (t : ℕ × View) × (now : ℕ) × (k ≤ 2)
    × (retried 2 (reconcile slow network cluster) worn ≡ (ok tt, t))
    × (t.1 ≡ committed network (5 ∷ []) now (after k (reconcile slow network cluster) worn).1)
reconcile-retried_example =
    reconcile-retried slow {faults = λ (n, v). n} tired-Recovers {view = λ (n, v). v} tired-IsLawful
      network cluster 2 worn {config = found} {calico_chart = 5 ∷ []} slow_render_lem (omega arith)

delete-retried_example :
    ((k : ℕ) × (t : ℕ × View) × (k ≤ 2)
      × (retried 2 (delete slow network cluster) worn ≡ (ok tt, t))
      × (t.1 ≡ deleted network (after k (delete slow network cluster) worn).1))
    × ((k : ℕ) × (t : ℕ × View) × (k ≤ 2)
        × (retried 2 (migrate slow network cluster) worn ≡ (ok tt, t))
        × (t.1 ≡ migrated network (after k (migrate slow network cluster) worn).1))
delete-retried_example =
    delete-retried slow {faults = λ (n, v). n} tired-Recovers {view = λ (n, v). v} tired-IsLawful
      network cluster 2 worn (omega arith)

-- Two networks, and their calls one by one in turn.
abbrev neighbour : Network
neighbour = record network { namespace = "shoot--dev--b" }

abbrev taking_turns : (cs ds : List Call) → List Call
taking_turns [] ds = ds
taking_turns (c ∷ cs) [] = c ∷ cs
taking_turns (c ∷ cs) (d ∷ ds) = c ∷ d ∷ taking_turns cs ds

abbrev mixed : List Call
mixed = taking_turns (reconcile_calls network (5 ∷ [])) (reconcile_calls neighbour (6 ∷ []))

abbrev mixed_calls :
    Interleaved (reconcile_calls network (5 ∷ [])) (reconcile_calls neighbour (6 ∷ [])) mixed
mixed_calls =
    first _ (second _ (first _ (second _ (first _ (second _ (first _ (second _ none_left)))))))

abbrev after_mixed : View
after_mixed = (run quiet.seed mixed empty_view).1

mixed_lem : run quiet.seed mixed empty_view ≡ (ok tt, after_mixed)
unfolding run
mixed_lem = refl

concurrent-committed_lem :
    (commit quiet network (some full_config) (5 ∷ [])
      ≡ run quiet.seed (reconcile_calls network (5 ∷ [])))
    × (commit quiet neighbour none (6 ∷ []) ≡ run quiet.seed (reconcile_calls neighbour (6 ∷ [])))
    × ((m : ℕ) × Same network.namespace (committed network (5 ∷ []) m empty_view) after_mixed)
    × ((m : ℕ) × Same neighbour.namespace (committed neighbour (6 ∷ []) m empty_view) after_mixed)
concurrent-committed_lem =
    concurrent-committed quiet {view = λ v. v} (seed_that-IsLawful missing) network neighbour
      (some full_config) none (5 ∷ []) (6 ∷ []) {es = mixed} empty_view {t = after_mixed} refl
      mixed_calls mixed_lem

-- Calls that fail, with an effect.
abbrev unlucky-IsAtomic : IsAtomic unlucky.seed (λ v. v)
unlucky-IsAtomic = record { attempted = λ c s. inr (0, refl) }

abbrev failing : List (Operation × Network × Cluster)
failing = (migrates, network, cluster) ∷ (reconciles, network, cluster) ∷ []

operate_all-Same_lem :
    Same "shoot--dev--b" empty_view
      (operate_all unlucky ((deletes, network, cluster) ∷ failing) empty_view)
operate_all-Same_lem =
    operate_all-Same unlucky {view = λ v. v} unlucky-IsAtomic "shoot--dev--b"
      ((deletes, network, cluster) ∷ failing) empty_view (refl, (refl, (refl, tt)))
