-- ===== src/Command/Config/Completed.antt =====
-- What `Complete` leaves in the options.
use gardener_extension_netwo.Prelude.{
  ◌≡◌, refl, sym, ap, false, Option, some, none, ◌==◌, arith, get_or,
}
use gardener_extension_netwo.Prelude.Result.{Result, ok, err, panic}
use gardener_extension_netwo.Command.Config.{
  Config, ConfigOptions, ControllerConfiguration, HealthCheckConfig, Loaders, load_from_file,
  build_config, completed_with, complete, completed, options, apply_health_check_config,
}

pub apply_health_check_config_lem :
    {C : Type 0} (c : ControllerConfiguration C) (given : Option HealthCheckConfig)
    (old : HealthCheckConfig)
    → c.health_check_config ≡ given
    → apply_health_check_config (record { config = c }) old ≡ get_or c.health_check_config old
unfolding apply_health_check_config
apply_health_check_config_lem c none old e = rw e
apply_health_check_config_lem c (some g) old e = rw e

module _ {C : Type 0} (F : Loaders C) where
  completed_with-eq-ok :
      (o : ConfigOptions C) (r : Result (ControllerConfiguration C)) {o' : ConfigOptions C}
      → completed_with F o r ≡ (ok tt, o')
      → (c : ControllerConfiguration C) × (r ≡ ok c)
        × (o' ≡ record o { config = some (record { config = c }) })
  completed_with-eq-ok o (ok c) h = (c, refl, sym (ap (λ x. x.1) h))
  completed_with-eq-ok o (err e) h = cc
  completed_with-eq-ok o (panic e) h = cc

  build_config-eq-ok :
      (o : ConfigOptions C) {c : ControllerConfiguration C}
      → build_config F o ≡ ok c
      → ((o.config_file_path == "") ≡ false) × (load_from_file F o.config_file_path ≡ ok c)
  unfolding build_config
  build_config-eq-ok o h = ground arith

  -- Options that complete well have a path, and hold the configuration that the file gives: it is what
  -- `Options` returns, and its health check settings, if there are any, replace the given ones.
  pub complete-options :
      (o : ConfigOptions C) (old : HealthCheckConfig) {o' : ConfigOptions C}
      → complete F o ≡ (ok tt, o')
      → (c : Config C) × (completed o' ≡ some c)
        × ((o.config_file_path == "") ≡ false)
        × (load_from_file F o.config_file_path ≡ ok (options c))
        × (apply_health_check_config c old ≡ get_or (options c).health_check_config old)
  unfolding complete completed options apply_health_check_config
  complete-options o old h =
      let (c, e, p) = completed_with-eq-ok o (build_config F o) h in
      let (given, loaded) = build_config-eq-ok o e in
      (
        record { config = c },
        ap (λ x. x.config) p,
        given,
        loaded,
        apply_health_check_config_lem c c.health_check_config old refl,
      )
