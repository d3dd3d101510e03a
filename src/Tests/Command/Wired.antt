-- ===== src/Tests/Command/Wired.antt =====
-- An actuator with injected fields, and one without.
use gardener_extension_netwo.Prelude.{
  ◌≡◌, refl, Bool, true, false, Option, if◌then◌else◌, none, some, [], ◌∷◌,
}
use gardener_extension_netwo.Prelude.Result.{Error, Result, ok, err, panic, errorf}
use gardener_extension_netwo.Gardener.{Bytes}
use gardener_extension_netwo.Images.{find_image}
use gardener_extension_netwo.Actuator.Seed.{Call, ◌>>◌}
use gardener_extension_netwo.Actuator.Seed.View.{View, change}
use gardener_extension_netwo.Actuator.Attempts.{reconciles, operate}
use gardener_extension_netwo.Actuator.Calm.{IsCalm}
use gardener_extension_netwo.Command.Setup.{
  ActuatorFields, inject_client, inject_config, new_actuator,
}
use gardener_extension_netwo.Command.Wired.{Wiring, environment_of, perform_with}
use gardener_extension_netwo.Command.Wired.Calm.{IsCalmWiring, injected-IsCalm}
use gardener_extension_netwo.Tests.Inputs.{
  all_images, counting_renderers, decode_byte, network, cluster,
}
use gardener_extension_netwo.Tests.Actuator.Memory.{empty_view, missing, answer, ignore_missing}
use gardener_extension_netwo.Tests.Command.{platform}

abbrev wiring : Wiring platform
wiring = record {
  images = all_images;
  vector = tt;
  renderers = λ factory. counting_renderers;
  decode = decode_byte;
  system_components_allowed = λ worker. true;
  shoot_wants_vertical_pod_autoscaler = λ shoot. false;
  State = View;
  with_client = λ client c v. (answer (missing c), change c 0 v);
  with_chart_applier = λ applier c v. (ok tt, change c 0 v);
  ignore_not_found = ignore_missing;
}

answer-IsCalm : (e : Option Error) → IsCalm (answer e)
answer-IsCalm none = tt
answer-IsCalm (some e) = tt

decode_byte-IsCalm : (raw : Bytes) → IsCalm (decode_byte raw)
decode_byte-IsCalm [] = tt
decode_byte-IsCalm (b ∷ rest) = tt

if-IsCalm : (b : Bool) (e : Error) → IsCalm {A = Unit {0}} (if b then ok tt else err e)
if-IsCalm true e = tt
if-IsCalm false e = tt

ignore_missing-IsCalm : (r : Result (Unit {0})) → IsCalm r → IsCalm (ignore_missing r)
ignore_missing-IsCalm (ok a) h = tt
ignore_missing-IsCalm (err e) h = if-IsCalm e.not_found e
ignore_missing-IsCalm (panic e) h = h

wiring-IsCalm : IsCalmWiring wiring tt "1.20.0"
unfolding find_image
wiring-IsCalm = record {
  decode = decode_byte-IsCalm;
  found =
      ((_, refl), ((_, refl), ((_, refl), ((_, refl), ((_, refl), ((_, refl), ((_, refl), tt)))))));
  new_for_shoot = tt;
  render = λ renderer path release namespace values. tt;
  with_client = λ client c s. answer-IsCalm (missing c);
  with_chart_applier = λ applier c s. tt;
  ignore_not_found = ignore_missing-IsCalm;
}

injected-IsCalm_example :
    (fields : ActuatorFields platform) × ((inject_client {P = platform} tt
          >> inject_config {P = platform} 1)
        (new_actuator {P = platform} tt)
      ≡ (ok tt, fields))
    × ((inject_config {P = platform} 1 >> inject_client {P = platform} tt)
          (new_actuator {P = platform} tt)
        ≡ (ok tt, fields))
    × IsCalm (operate (environment_of wiring fields) reconciles network cluster empty_view).0
    × ((c : Call)
        → perform_with wiring (new_actuator {P = platform} tt) c empty_view
          ≡ (panic (errorf "invalid memory address or nil pointer dereference"), empty_view))
injected-IsCalm_example =
    injected-IsCalm wiring tt tt 1 {clientset = tt} reconciles network cluster empty_view refl refl
      wiring-IsCalm
