-- ===== src/Tests/Actuator/Memory.antt =====
-- Seeds whose state is what can be seen of them.
use gardener_extension_netwo.Prelude.{
  ◌≡◌, refl, arith, sym, ap, ◌⊎◌, inl, inr, true, false, Option, none, some, get_or, if◌then◌else◌,
}
use gardener_extension_netwo.Prelude.Result.{Error, Result, ok, err, panic, errorf}
use gardener_extension_netwo.Actuator.Seed.{Call, set_keep_objects, delete_chart, Seed}
use gardener_extension_netwo.Actuator.Seed.View.{View, change, IsLawful}
use gardener_extension_netwo.Actuator.Environment.{Environment}
use gardener_extension_netwo.Tests.Inputs.{all_images, counting_renderers, decode_byte}

abbrev pub empty_view : View
empty_view = record {
  secrets = λ n k. none;
  managed_resources = λ n k. none;
  shoot_objects = λ n k. true;
  chart_objects = λ t n k. false;
  statuses = λ n k. record { provider_status = none; last_operation = none };
}

abbrev pub ignore_missing : Result (Unit {0}) → Result (Unit {0})
ignore_missing (ok a) = ok a
ignore_missing (err e) = if e.not_found then ok tt else err e
ignore_missing (panic e) = panic e

abbrev pub answer : Option Error → Result (Unit {0})
answer none = ok tt
answer (some e) = err e

-- It answers some calls with errors.
abbrev pub seed_that : (Call → Option Error) → Seed
seed_that refuses = record {
  State = View;
  perform = λ c v. (answer (refuses c), change c 0 v);
  ignore_not_found = ignore_missing;
}

pub ignore_missing-eq-ok :
    (r : Result (Unit {0}))
    → ignore_missing r ≡ ok tt
    → (r ≡ ok tt) ⊎ ((e : Error) × (r ≡ err e) × (e.not_found ≡ true))
ignore_missing-eq-ok (ok a) h = inl refl
ignore_missing-eq-ok (err e) h = inr (e, refl, ground arith)
ignore_missing-eq-ok (panic e) h = cc

pub seed_that-IsLawful : (refuses : Call → Option Error) → IsLawful (seed_that refuses) (λ v. v)
seed_that-IsLawful refuses = record {
  performed = λ c h. (0, sym (ap (λ x. x.1) h));
  absent = λ c n e h m. (0, sym (ap (λ x. x.1) h));
  ignore_not_found = ignore_missing-eq-ok;
}

abbrev pub environment_with : Seed → Environment
environment_with seed = record {
  images = all_images;
  vector = tt;
  renderers = counting_renderers;
  decode = decode_byte;
  system_components_allowed = λ worker. get_or worker.system_components true;
  shoot_wants_vertical_pod_autoscaler = λ shoot. get_or shoot.vertical_pod_autoscaler false;
  seed = seed;
}

-- The monitoring objects are never there to be deleted.
abbrev pub missing : Call → Option Error
missing (delete_chart c n) = some (record { message = "not found"; not_found = true })
missing _ = none

-- No managed resource can be marked.
abbrev pub unmarked : Call → Option Error
unmarked (set_keep_objects n k keep) = some (errorf "conflict")
unmarked _ = none

abbrev pub quiet : Environment
quiet = environment_with (seed_that missing)

abbrev pub unlucky : Environment
unlucky = environment_with (seed_that unmarked)
