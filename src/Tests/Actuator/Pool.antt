-- ===== src/Tests/Actuator/Pool.antt =====
-- Two workers, and their calls in turn.
use gardener_extension_netwo.Prelude.{◌≡◌, refl, String, [], ◌∷◌, inr}
use gardener_extension_netwo.Prelude.Result.{ok}
use gardener_extension_netwo.Gardener.{Network, Cluster}
use gardener_extension_netwo.Api.Decode.{calico_network_config_from_network_resource}
use gardener_extension_netwo.Images.{find_image}
use gardener_extension_netwo.Charts.Generate.{generate_chart_values}
use gardener_extension_netwo.Charts.Marshal.{to_map}
use gardener_extension_netwo.Charts.Values.{image_values, compute_calico_chart_values}
use gardener_extension_netwo.Charts.Render.{render_calico_chart}
use gardener_extension_netwo.Actuator.Seed.View.{View}
use gardener_extension_netwo.Actuator.Seed.Places.{Same}
use gardener_extension_netwo.Actuator.Reconcile.{
  activate_system_components_node_selector, detect_nodes, provider_config, render,
}
use gardener_extension_netwo.Actuator.Attempts.{IsAtomic, Operation, reconciles, deletes}
use gardener_extension_netwo.Actuator.Phases.{Holds}
use gardener_extension_netwo.Actuator.Pool.{
  rendering, idle, Pool, begins, calls, ends, Reach, here, next,
}
use gardener_extension_netwo.Actuator.Pool.Calls.{IsCalls}
use gardener_extension_netwo.Actuator.Pool.Serial.{Alone, Reach-IsSerial}
use gardener_extension_netwo.Actuator.Pool.Settled.{phase_of, finished-Holds}
use gardener_extension_netwo.Tests.Inputs.{network, cluster}
use gardener_extension_netwo.Tests.Actuator.Memory.{empty_view, missing, quiet, seed_that-IsLawful}

abbrev other_network : Network
other_network = record network { namespace = "shoot--dev--b" }

abbrev nothing : Pool quiet.seed
nothing = record { state = empty_view; workers = λ n. idle }

rendering_lem : rendering quiet reconciles network cluster empty_view ≡ ok (5 ∷ [])
unfolding render provider_config calico_network_config_from_network_resource render_calico_chart
    compute_calico_chart_values generate_chart_values detect_nodes to_map image_values find_image
    activate_system_components_node_selector
rendering_lem = refl

-- The first worker reconciles, and ends; the other is in a deletion.
abbrev worked : (p : Pool quiet.seed) × Reach quiet nothing p
worked =
    let begun_a = next here (begins reconciles network cluster nothing tt rendering_lem) in
    let begun_b = next begun_a (begins deletes other_network cluster _ tt refl) in
    let a₁ = next begun_b (calls "shoot--dev--a" reconciles network (5 ∷ []) _ _ _ refl) in
    let b₁ = next a₁ (calls "shoot--dev--b" deletes other_network [] _ _ _ refl) in
    let a₂ = next b₁ (calls "shoot--dev--a" reconciles network (5 ∷ []) _ _ _ refl) in
    let a₃ = next a₂ (calls "shoot--dev--a" reconciles network (5 ∷ []) _ _ _ refl) in
    let b₂ = next a₃ (calls "shoot--dev--b" deletes other_network [] _ _ _ refl) in
    let a₄ = next b₂ (calls "shoot--dev--a" reconciles network (5 ∷ []) _ _ _ refl) in
    (_, next a₄ (ends "shoot--dev--a" reconciles network (5 ∷ []) _ refl))

abbrev quiet-IsAtomic : IsAtomic quiet.seed (λ v. v)
quiet-IsAtomic = record { attempted = λ c s. inr (0, refl) }

Reach-IsSerial_example :
    ((op : Operation) (network : Network) (cluster : Cluster) → IsCalls quiet op network cluster)
    × ((n : String)
        → (w : View) × Alone quiet n empty_view (worked.0.workers n) w × Same n w worked.0.state)
Reach-IsSerial_example =
    Reach-IsSerial quiet {view = λ v. v} (seed_that-IsLawful missing) quiet-IsAtomic
      {start = nothing} {p = worked.0} (λ n. refl) worked.1

finished-Holds_example :
    (network.namespace ≡ "shoot--dev--a")
    × ((c : Cluster) × (s : View) × (rendering quiet reconciles network c s ≡ ok (5 ∷ []))
        × IsCalls quiet reconciles network c)
    × Holds "shoot--dev--a" (phase_of reconciles (5 ∷ [])) worked.0.state
finished-Holds_example =
    finished-Holds quiet {view = λ v. v} (seed_that-IsLawful missing) quiet-IsAtomic
      {start = nothing} {p = worked.0} "shoot--dev--a" {op = reconciles} {network = network}
      {calico_chart = 5 ∷ []} (λ n. refl) worked.1 refl
