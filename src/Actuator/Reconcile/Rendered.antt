-- ===== src/Actuator/Reconcile/Rendered.antt =====
-- The chart that `Reconcile` writes, and what it does when there is none.
use gardener_extension_netwo.Prelude.{◌≡◌, Bool, true, Option, none, some, arith, ◌↔◌}
use gardener_extension_netwo.Prelude.Result
use gardener_extension_netwo.Prelude.Result.{Error, Result, ok, err, errorf}
use gardener_extension_netwo.Calico.{calico_chart_path, release_name}
use gardener_extension_netwo.Gardener.{Bytes, RawExtension, Network, Shoot, Cluster}
use gardener_extension_netwo.Json.{Members}
use gardener_extension_netwo.Json.Maps.{go_map}
use gardener_extension_netwo.Api.Types.{NetworkConfig}
use gardener_extension_netwo.Charts.Config.{CalicoConfig}
use gardener_extension_netwo.Charts.Generate.{generate_chart_values}
use gardener_extension_netwo.Charts.Values.Laws.{IsChart}
use gardener_extension_netwo.Charts.Render.{namespace_system}
use gardener_extension_netwo.Actuator.Seed.{continue}
use gardener_extension_netwo.Actuator.Seed.Script.{run}
use gardener_extension_netwo.Actuator.Environment.{Environment}
use gardener_extension_netwo.Actuator.Reconcile.{provider_config, render, reconcile}
use gardener_extension_netwo.Actuator.Reconcile.Given.{IsDecoded, IsDetected}
use gardener_extension_netwo.Actuator.Reconcile.Workers.{Allowing}
use gardener_extension_netwo.Actuator.Reconcile.Desired.{reconcile_calls, commit-run, render-state}

module _ (E : Environment) (network : Network) (cluster : Cluster) where
  -- The configuration that is rendered is what the raw bytes of the provider config are decoded into, with
  -- the detection method for the nodes of the shoot and all else as it was. The chart is the manifest of
  -- the release that the renderer for the version of the shoot makes of the values for it, which have the
  -- node selector exactly if some worker pool allows system components.
  pub record IsRendered (config : Option NetworkConfig) (calico_chart : Bytes) : Type 1 where
    pub shoot : Shoot
    pub there : cluster.shoot ≡ some shoot
    pub given : Option NetworkConfig
    pub decoded : IsDecoded E.decode network.provider_config given
    pub detected : IsDetected shoot.nodes given config
    pub typed : CalicoConfig
    pub generated : generate_chart_values config ≡ ok typed
    pub selecting : Bool
    pub selects : (selecting ≡ true) ↔ Allowing E.system_components_allowed shoot.workers
    pub values : Members
    pub chart_values :
        IsChart E.images E.vector network selecting shoot.kubernetes_version
          (E.shoot_wants_vertical_pod_autoscaler shoot)
          typed
          values
    pub renderer : E.renderers.Renderer
    pub made : E.renderers.new_for_shoot shoot.kubernetes_version ≡ ok renderer
    pub release : E.renderers.Release
    pub rendered :
        E.renderers.render renderer calico_chart_path release_name namespace_system (go_map values)
        ≡ ok release
    pub written : calico_chart ≡ E.renderers.manifest release

  -- `Reconcile` is the rendering and then its four calls, up to the first that does not succeed. Where the rendering
  -- ends in an error or a panic, so does `Reconcile`, and it makes no call.
  pub reconcile-run :
      (s : E.seed.State)
      → reconcile E network cluster s
        ≡ continue
            (render E network cluster s).0
            s
            (λ (config, calico_chart). run E.seed (reconcile_calls network calico_chart))
  unfolding reconcile
  reconcile-run s = λ i.
      continue (render E network cluster s).0 (render-state E network cluster s i)
        (λ (config, calico_chart) t. commit-run E network config calico_chart t i)

  -- Where a provider config is there without its raw bytes, that is the error, and nothing is called.
  pub reconcile-no_raw :
      (s : E.seed.State) {extension : RawExtension}
      → network.provider_config ≡ some extension
      → extension.raw ≡ none
      → reconcile E network cluster s
        ≡ (err (errorf "provider config is not set on the network resource"), s)
  unfolding reconcile render provider_config
  reconcile-no_raw s e f = ground arith
