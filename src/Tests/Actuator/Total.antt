-- ===== src/Tests/Actuator/Total.antt =====
-- A reconciliation with nothing that fails.
use gardener_extension_netwo.Prelude.{◌≡◌, refl, ℕ, none, some, [], ◌∷◌, Every}
use gardener_extension_netwo.Prelude.Result.{ok}
use gardener_extension_netwo.Calico.{calico_chart_path, release_name}
use gardener_extension_netwo.Charts.Render.{namespace_system}
use gardener_extension_netwo.Api.Decode.{calico_network_config_from_network_resource}
use gardener_extension_netwo.Charts.Config.{CalicoConfig}
use gardener_extension_netwo.Charts.Generate.{generate_chart_values}
use gardener_extension_netwo.Charts.Values.Laws.{IsFound, image_names}
use gardener_extension_netwo.Images.{find_image}
use gardener_extension_netwo.Actuator.Seed.View.{View}
use gardener_extension_netwo.Actuator.Environment.{Environment}
use gardener_extension_netwo.Actuator.Reconcile.{
  detect_nodes, provider_config, reconcile, activate_system_components_node_selector,
}
use gardener_extension_netwo.Actuator.Reconcile.Desired.{committed}
use gardener_extension_netwo.Actuator.Reconcile.Total.{expected_values, reconcile-total}
use gardener_extension_netwo.Tests.Inputs.{full_config, network, cluster, shoot}
use gardener_extension_netwo.Tests.Actuator.Memory.{
  empty_view, environment_with, seed_that, seed_that-IsLawful,
}

abbrev obliging : Environment
obliging = environment_with (seed_that (λ c. none))

decoded_lem : provider_config obliging network ≡ ok (some full_config)
unfolding provider_config calico_network_config_from_network_resource
decoded_lem = refl

accepted_lem :
    (typed : CalicoConfig) × (generate_chart_values (detect_nodes shoot.nodes (some full_config))
      ≡ ok typed)
unfolding generate_chart_values detect_nodes
accepted_lem = (_, refl)

found_lem : Every (IsFound obliging.images obliging.vector "1.20.0") image_names
unfolding find_image
found_lem =
    ((_, refl), ((_, refl), ((_, refl), ((_, refl), ((_, refl), ((_, refl), ((_, refl), tt)))))))

rendered_lem :
    obliging.renderers.render "1.20.0" calico_chart_path release_name namespace_system
      (expected_values obliging network shoot found_lem accepted_lem.0)
    ≡ ok 5
unfolding activate_system_components_node_selector
rendered_lem = refl

reconcile-total_example :
    (t : View) × (now : ℕ) × (reconcile obliging network cluster empty_view ≡ (ok tt, t))
    × (t ≡ committed network (5 ∷ []) now empty_view)
reconcile-total_example =
    reconcile-total obliging network cluster {shoot = shoot} refl {view = λ v. v}
      (seed_that-IsLawful (λ c. none)) {given = some full_config} {typed = accepted_lem.0}
      {renderer = "1.20.0"} {release = 5} empty_view decoded_lem accepted_lem.1 found_lem refl
      rendered_lem (λ c s. refl)
