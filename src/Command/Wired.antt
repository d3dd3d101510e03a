-- ===== src/Command/Wired.antt =====
-- The methods of pkg/controller on the fields of pkg/controller/actuator.go: a call goes through the
-- client or the chart applier that was injected.
pub mod Calm
use gardener_extension_netwo.Prelude.{◌≡◌, refl, ◌∙◌, String, Bool, Option, none, some, Every}
use gardener_extension_netwo.Prelude.Result.{Result, ok, err, panic, errorf}
use gardener_extension_netwo.Gardener.{Bytes, Worker, Shoot, Network, Cluster}
use gardener_extension_netwo.Api.Types.{NetworkConfig}
use gardener_extension_netwo.Json.{Members}
use gardener_extension_netwo.Images.{ImageVectors}
use gardener_extension_netwo.Charts.Render.{ChartRenderers}
use gardener_extension_netwo.Charts.Values.Laws.{IsFound, image_names}
use gardener_extension_netwo.Actuator.Seed.{Call, apply_chart, Seed, Action, lift, ◌>>◌}
use gardener_extension_netwo.Actuator.Environment.{Environment}
use gardener_extension_netwo.Actuator.Attempts.{Operation, operate}
use gardener_extension_netwo.Actuator.Calm.{IsCalm, IsCalmEnvironment, operate-IsCalm}
use gardener_extension_netwo.Command.Setup.{
  Platform, ActuatorFields, inject_client, inject_config, new_actuator, log_id,
}
use gardener_extension_netwo.Command.Setup.Injected.{inject-new_actuator}

-- What the fields of the actuator do, and the packages that it calls.
pub record Wiring (P : Platform) : Type 1 where
  pub images : ImageVectors
  pub vector : images.ImageVector
  pub renderers : P.ChartRendererFactory → ChartRenderers
  pub decode : Bytes → Result NetworkConfig
  pub system_components_allowed : Worker → Bool
  pub shoot_wants_vertical_pod_autoscaler : Shoot → Bool
  pub State : Type 0
  pub with_client : P.Client → Call → State → Result (Unit {0}) × State
  pub with_chart_applier : P.ChartApplier → Call → State → Result (Unit {0}) × State
  pub ignore_not_found : Result (Unit {0}) → Result (Unit {0})

module _ {P : Platform} (W : Wiring P) where
  -- A call through a field that is nil panics.
  abbrev pub through :
      {A : Type 0}
      → (A → Call → W.State → Result (Unit {0}) × W.State)
      → Option A
      → Call
      → W.State
      → Result (Unit {0}) × W.State
  through with_field none c s =
      (panic (errorf "invalid memory address or nil pointer dereference"), s)
  through with_field (some a) c s = with_field a c s

  -- Charts are applied by the chart applier; all else is done with the client.
  unfoldable pub perform_with : ActuatorFields P → Call → W.State → Result (Unit {0}) × W.State
  perform_with a (apply_chart c n values) s =
      through W.with_chart_applier a.chart_applier (apply_chart c n values) s
  perform_with a c s = through W.with_client a.client c s

  abbrev pub environment_of : ActuatorFields P → Environment
  environment_of a = record {
    images = W.images;
    vector = W.vector;
    renderers = W.renderers a.chart_renderer_factory;
    decode = W.decode;
    system_components_allowed = W.system_components_allowed;
    shoot_wants_vertical_pod_autoscaler = W.shoot_wants_vertical_pod_autoscaler;
    seed = record {
      State = W.State;
      perform = perform_with a;
      ignore_not_found = W.ignore_not_found;
    };
  }
