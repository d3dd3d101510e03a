-- ===== src/Actuator/Reconcile/Total.antt =====
-- When `Reconcile` ends well, and what it leaves then.
use gardener_extension_netwo.Prelude.{
  ◌≡◌, refl, sym, ap, ◌∙◌, ℕ, Option, some, List, [], ◌∷◌, Every,
}
use gardener_extension_netwo.Prelude.Result.{ok, ok-injective}
use gardener_extension_netwo.Calico.{calico_chart_path, release_name}
use gardener_extension_netwo.Gardener.{Network, Shoot, Cluster}
use gardener_extension_netwo.Json.Maps.{GoMap, go_map}
use gardener_extension_netwo.Api.Types.{NetworkConfig}
use gardener_extension_netwo.Charts.Config.{CalicoConfig}
use gardener_extension_netwo.Charts.Generate.{generate_chart_values}
use gardener_extension_netwo.Charts.Values.Laws.{IsFound, image_names}
use gardener_extension_netwo.Charts.Values.Listed.{
  listed_values, compute_calico_chart_values-listed,
}
use gardener_extension_netwo.Charts.Render.{namespace_system, render_calico_chart}
use gardener_extension_netwo.Actuator.Seed.{Call, Seed, continue}
use gardener_extension_netwo.Actuator.Seed.Script.{run}
use gardener_extension_netwo.Actuator.Seed.View.{View, IsLawful}
use gardener_extension_netwo.Actuator.Environment.{Environment}
use gardener_extension_netwo.Actuator.Reconcile.{
  detect_nodes, activate_system_components_node_selector, provider_config, render, reconcile,
}
use gardener_extension_netwo.Actuator.Reconcile.Desired.{
  committed, reconcile_calls, reconcile-committed,
}
use gardener_extension_netwo.Actuator.Reconcile.Rendered.{reconcile-run}

module _ (S : Seed) where
  -- On a seed that answers every call well, a script does.
  run-ok :
      ((c : Call) (s : S.State) → (S.perform c s).0 ≡ ok tt)
      → (cs : List Call) (s : S.State) → (t : S.State) × (run S cs s ≡ (ok tt, t))
  unfolding run
  run-ok good [] s = (s, refl)
  run-ok good (c ∷ cs) s =
      let (t, e) = run-ok good cs (S.perform c s).1 in
      (t, ap (λ r. continue r (S.perform c s).1 (λ _. run S cs)) (good c s) ∙ e)

module _ (E : Environment) (network : Network) (shoot : Shoot) where
  -- The values of the chart for a configuration and the images found.
  abbrev pub expected_values :
      Every (IsFound E.images E.vector shoot.kubernetes_version) image_names → CalicoConfig → GoMap
  expected_values found typed = go_map (
      listed_values E.images E.vector shoot.kubernetes_version network
        (activate_system_components_node_selector E.system_components_allowed shoot)
        (E.shoot_wants_vertical_pod_autoscaler shoot) found typed)

module _ (E : Environment) (network : Network) (cluster : Cluster) {shoot : Shoot}
    (there : cluster.shoot ≡ some shoot) where
  render-ok :
      {given : Option NetworkConfig} {typed : CalicoConfig} {renderer : E.renderers.Renderer}
      {release : E.renderers.Release} (s : E.seed.State)
      → provider_config E network ≡ ok given
      → generate_chart_values (detect_nodes shoot.nodes given) ≡ ok typed
      → (found : Every (IsFound E.images E.vector shoot.kubernetes_version) image_names)
      → E.renderers.new_for_shoot shoot.kubernetes_version ≡ ok renderer
      → E.renderers.render renderer calico_chart_path release_name namespace_system
          (expected_values E network shoot found typed)
        ≡ ok release
      → (render E network cluster s).0
        ≡ ok (detect_nodes shoot.nodes given, E.renderers.manifest release)
  unfolding render render_calico_chart
  render-ok {given} {renderer = renderer} s decoded accepted found made rendered =
      let (values, computed, same) =
        compute_calico_chart_values-listed E.images E.vector shoot.kubernetes_version network
          (detect_nodes shoot.nodes given)
          (activate_system_components_node_selector E.system_components_allowed shoot)
          (E.shoot_wants_vertical_pod_autoscaler shoot) accepted found in
      let rendered =
        ap (E.renderers.render renderer calico_chart_path release_name namespace_system) same
        ∙ rendered in
      rw (decoded, there, made, computed, rendered) refl

  -- With a shoot in the cluster, a provider config that is decoded and accepted once the nodes are detected, the images for the
  -- version of the shoot, a release that the renderer makes of the chart's listed values, and a seed that does
  -- not fail, `Reconcile` ends well, and leaves the manifest of that release as `committed` says.
  pub reconcile-total :
      {view : E.seed.State → View} (L : IsLawful E.seed view) {given : Option NetworkConfig}
      {typed : CalicoConfig} {renderer : E.renderers.Renderer} {release : E.renderers.Release}
      (s : E.seed.State)
      → provider_config E network ≡ ok given
      → generate_chart_values (detect_nodes shoot.nodes given) ≡ ok typed
      → (found : Every (IsFound E.images E.vector shoot.kubernetes_version) image_names)
      → E.renderers.new_for_shoot shoot.kubernetes_version ≡ ok renderer
      → E.renderers.render renderer calico_chart_path release_name namespace_system
          (expected_values E network shoot found typed)
        ≡ ok release
      → ((c : Call) (s : E.seed.State) → (E.seed.perform c s).0 ≡ ok tt)
      → (t : E.seed.State) × (now : ℕ) × (reconcile E network cluster s ≡ (ok tt, t))
        × (view t ≡ committed network (E.renderers.manifest release) now (view s))
  reconcile-total {view} L {release = release} s decoded accepted found made rendered good =
      let e = render-ok s decoded accepted found made rendered in
      let (t, ran) =
        run-ok E.seed good (reconcile_calls network (E.renderers.manifest release)) s in
      let ended : reconcile E network cluster s ≡ (ok tt, t) =
        reconcile-run E network cluster s ∙ rw e ran in
      let (config', chart', now, e', p) = reconcile-committed E L network cluster s ended in
      let same = ap (λ x. x.1) (ok-injective (sym e' ∙ e)) in
      (t, now, ended, p ∙ ap (λ c. committed network c now (view s)) same)
