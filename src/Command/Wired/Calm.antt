-- ===== src/Command/Wired/Calm.antt =====
-- When the operations of a started actuator do not panic.
use gardener_extension_netwo.Prelude.{◌≡◌, refl, ◌∙◌, String, Option, some, Every}
use gardener_extension_netwo.Prelude.Result.{Result, ok, panic, errorf}
use gardener_extension_netwo.Gardener.{Bytes, Network, Shoot, Cluster}
use gardener_extension_netwo.Json.Maps.{GoMap}
use gardener_extension_netwo.Charts.Values.Laws.{IsFound, image_names}
use gardener_extension_netwo.Actuator.Seed.{Call, apply_chart, ◌>>◌}
use gardener_extension_netwo.Actuator.Attempts.{Operation, operate}
use gardener_extension_netwo.Actuator.Calm.{IsCalm, IsCalmEnvironment, operate-IsCalm}
use gardener_extension_netwo.Command.Wired.{Wiring, through, perform_with, environment_of}
use gardener_extension_netwo.Command.Setup.{
  Platform, ActuatorFields, inject_client, inject_config, new_actuator, log_id,
}
use gardener_extension_netwo.Command.Setup.Injected.{inject-new_actuator}

-- Nothing that the actuator is given panics, and the image vector has the seven images for the version.
pub record IsCalmWiring {P : Platform} (W : Wiring P) (factory : P.ChartRendererFactory)
    (version : String) : Type 0 where
  pub decode : (raw : Bytes) → IsCalm (W.decode raw)
  pub found : Every (IsFound W.images W.vector version) image_names
  pub new_for_shoot : IsCalm ((W.renderers factory).new_for_shoot version)
  pub render :
      (renderer : (W.renderers factory).Renderer) (path release namespace : String) (values : GoMap)
      → IsCalm ((W.renderers factory).render renderer path release namespace values)
  pub with_client :
      (client : P.Client) (c : Call) (s : W.State) → IsCalm (W.with_client client c s).0
  pub with_chart_applier :
      (applier : P.ChartApplier) (c : Call) (s : W.State)
      → IsCalm (W.with_chart_applier applier c s).0
  pub ignore_not_found : (r : Result (Unit {0})) → IsCalm r → IsCalm (W.ignore_not_found r)

module _ {P : Platform} (W : Wiring P) where
  -- The fields that a call goes through are set.
  abbrev IsInjected : ActuatorFields P → P.Client → P.ChartApplier → Type 0
  IsInjected a client applier = (a.client ≡ some client) × (a.chart_applier ≡ some applier)

  through-IsCalm :
      {A : Type 0} (f : A → Call → W.State → Result (Unit {0}) × W.State) (o : Option A) {a : A}
      (c : Call) (s : W.State)
      → o ≡ some a
      → IsCalm (f a c s).0
      → IsCalm (through W f o c s).0
  through-IsCalm f o c s e h = rw e h

  module _ (factory : P.ChartRendererFactory) {version : String}
      (calm : IsCalmWiring W factory version) where
    perform_with-IsCalm :
        (a : ActuatorFields P) {client : P.Client} {applier : P.ChartApplier}
        → IsInjected a client applier
        → (c : Call) (s : W.State) → IsCalm (perform_with W a c s).0
    unfolding perform_with
    perform_with-IsCalm a (x, y) (apply_chart c n values) s =
        through-IsCalm W.with_chart_applier a.chart_applier _ s y (calm.with_chart_applier _ _ s)
    perform_with-IsCalm a (x, y) c s =
        through-IsCalm W.with_client a.client c s x (calm.with_client _ c s)

  -- Before the injections every call panics, and has no effect.
  perform_with-new_actuator :
      (factory : P.ChartRendererFactory) (c : Call) (s : W.State)
      → perform_with W (new_actuator factory) c s
        ≡ (panic (errorf "invalid memory address or nil pointer dereference"), s)
  unfolding perform_with new_actuator
  perform_with-new_actuator factory (apply_chart c n values) s = refl
  perform_with-new_actuator factory c s = refl

  abbrev pub injected :
      P.ChartRendererFactory → P.Client → P.RestConfig → P.Clientset → ActuatorFields P
  injected factory client config clientset = record {
    logger = log_id;
    chart_renderer_factory = factory;
    rest_config = some config;
    client = some client;
    gardener_clientset = some clientset;
    chart_applier = some (P.chart_applier clientset);
  }

  calm_environment :
      (factory : P.ChartRendererFactory) (client : P.Client) (config : P.RestConfig)
      (clientset : P.Clientset) {version : String}
      → IsCalmWiring W factory version
      → IsCalmEnvironment (environment_of W (injected factory client config clientset)) version
  calm_environment factory client config clientset calm = record {
    decode = calm.decode;
    found = calm.found;
    new_for_shoot = calm.new_for_shoot;
    render = calm.render;
    perform =
        perform_with-IsCalm factory calm (injected factory client config clientset) (refl, refl);
    ignore_not_found = calm.ignore_not_found;
  }

  -- Where a clientset can be made, both injections end well on a new actuator, in either order, with the same
  -- fields. With these no operation panics, if the cluster has a shoot, nothing that the actuator is given
  -- panics, and the image vector has the images for the version of the shoot. Before the injections every call panics, without effect.
  pub injected-IsCalm :
      (factory : P.ChartRendererFactory) (client : P.Client) (config : P.RestConfig)
      {clientset : P.Clientset} (op : Operation) (network : Network) (cluster : Cluster)
      {shoot : Shoot} (s : W.State)
      → P.new_with_config config ≡ ok clientset
      → cluster.shoot ≡ some shoot
      → IsCalmWiring W factory shoot.kubernetes_version
      → (fields : ActuatorFields P) × ((inject_client client >> inject_config config)
            (new_actuator factory)
          ≡ (ok tt, fields))
        × ((inject_config config >> inject_client client) (new_actuator factory) ≡ (ok tt, fields))
        × IsCalm (operate (environment_of W fields) op network cluster s).0
        × ((c : Call)
            → perform_with W (new_actuator factory) c s
              ≡ (panic (errorf "invalid memory address or nil pointer dereference"), s))
  injected-IsCalm factory client config {clientset} op network cluster s made there calm =
      let (fields, set, first, second) = inject-new_actuator factory client config made in
      let all = injected factory client config clientset in
      (
        all,
        first ∙ (λ i. (ok tt, set i)),
        second ∙ (λ i. (ok tt, set i)),
        operate-IsCalm (environment_of W all) network cluster there
            (calm_environment factory client config clientset calm) op s,
        λ c. perform_with-new_actuator factory c s,
      )
