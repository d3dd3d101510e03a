-- ===== src/Command/Run/Started.antt =====
-- The calls that the command makes to the manager.
use gardener_extension_netwo.Prelude.{
  ◌≡◌, refl, sym, ap, ◌∙◌, String, Bool, true, false, none, some, List, [], ◌∷◌, get_or,
}
use gardener_extension_netwo.Prelude.Result.{Result, ok, err, panic, >>=-eq-ok, ok-injective}
use gardener_extension_netwo.Actuator.Seed.{Action, lift, continue, ◌>>◌}
use gardener_extension_netwo.Actuator.Reconcile.{wrapping}
use gardener_extension_netwo.Command.Config.{
  ControllerConfiguration, Loaders, complete, completed, options, load_from_file,
}
use gardener_extension_netwo.Command.Config.Completed.{
  complete-options, apply_health_check_config_lem,
}
use gardener_extension_netwo.Command.Setup.{
  Platform, Host, ManagerCall, new_manager, add_to_scheme, controller_scheme, calico_scheme,
  resource_manager_scheme, add_network_controller, default_registration, start, new_actuator,
  default_sync_period, log_id, add_to_manager, add_health_check_to_manager,
  add_to_manager_with_options, register_health_checks,
}
use gardener_extension_netwo.Command.Options.{
  CommandOptions, Completers, CompletedOptions, complete_options,
}
use gardener_extension_netwo.Command.Run.{exiting, run_completed, run_command}

-- Whether an action ended well, and the state it left.
abbrev pub ended : {S : Type 0} → Result (Unit {0}) × S → Bool × S
ended (ok a, s) = (true, s)
ended (err e, s) = (false, s)
ended (panic e, s) = (false, s)

module _ {S : Type 0} where
  ended-continue :
      (message : String) (r : Result (Unit {0})) (s : S) (f g : Unit {0} → Action S (Unit {0}))
      → ((t : S) → ended (f tt t) ≡ ended (g tt t))
      → ended (continue (wrapping message r) s f) ≡ ended (continue r s g)
  ended-continue message (ok a) s f g h = h s
  ended-continue message (err e) s f g h = refl
  ended-continue message (panic e) s f g h = refl

  ended-exiting :
      (message : String) (a : Action S (Unit {0})) (f g : Action S (Unit {0}))
      → ((t : S) → ended (f t) ≡ ended (g t))
      → (s : S) → ended ((exiting message a >> f) s) ≡ ended ((a >> g) s)
  ended-exiting message a f g h s = ended-continue message (a s).0 (a s).1 (λ _. f) (λ _. g) h

  continue_assoc :
      (r : Result (Unit {0})) (s : S) (b g : Action S (Unit {0}))
      → continue (continue r s (λ _. b)).0 (continue r s (λ _. b)).1 (λ _. g)
        ≡ continue r s (λ _. b >> g)
  continue_assoc (ok a) s b g = refl
  continue_assoc (err e) s b g = refl
  continue_assoc (panic e) s b g = refl

  ended-last :
      (message : String) (r : Result (Unit {0})) (s : S)
      → ended (wrapping message r, s) ≡ ended (continue r s (λ _. lift (ok tt)))
  ended-last message (ok a) s = refl
  ended-last message (err e) s = refl
  ended-last message (panic e) s = refl

  -- The shape of the command: six steps with messages of their own, the fourth of two calls.
  ended-six_exits :
      (p q r t u v : String) (a b c d e f g : Action S (Unit {0})) (s : S)
      → ended (
          (exiting p a
              >> (exiting q b
                  >> (exiting r c >> (exiting t (d >> e) >> (exiting u f >> exiting v g)))))
            s)
        ≡ ended ((a >> (b >> (c >> (d >> (e >> (f >> (g >> lift (ok tt)))))))) s)
  ended-six_exits p q r t u v a b c d e f g =
      let f₆ : Action S (Unit {0}) = exiting v g in
      let g₆ : Action S (Unit {0}) = g >> lift (ok tt) in
      let f₅ : Action S (Unit {0}) = exiting u f >> f₆ in
      let g₅ : Action S (Unit {0}) = f >> g₆ in
      let f₄ : Action S (Unit {0}) = exiting t (d >> e) >> f₅ in
      let g₄ : Action S (Unit {0}) = d >> (e >> g₅) in
      let f₃ : Action S (Unit {0}) = exiting r c >> f₄ in
      let g₃ : Action S (Unit {0}) = c >> g₄ in
      let f₂ : Action S (Unit {0}) = exiting q b >> f₃ in
      let g₂ : Action S (Unit {0}) = b >> g₃ in
      let h₅ = ended-exiting u f f₆ g₆ (λ s. ended-last v (g s).0 (g s).1) in
      let h₄ = λ (s : S).
        ended-exiting t (d >> e) f₅ g₅ h₅ s ∙ ap ended (continue_assoc (d s).0 (d s).1 e g₅) in
      ended-exiting p a f₂ g₂ (ended-exiting q b f₃ g₃ (ended-exiting r c f₄ g₄ h₄))

module _ {P : Platform} (H : Host P) where
  -- The calls in order, up to the first that does not succeed.
  abbrev pub perform_all : List (ManagerCall P) → Action H.State (Unit {0})
  perform_all [] = lift (ok tt)
  perform_all (c ∷ cs) = H.perform c >> perform_all cs

module _ {P : Platform} {C : Type 0} (F : Loaders C) (K : Completers P C) where
  -- The calls for completed options and the configuration from the file.
  abbrev pub startup_calls : CompletedOptions P C → ControllerConfiguration C → List (ManagerCall P)
  startup_calls c configuration =
      new_manager (K.apply_client_connection configuration.client_connection c.rest)
        (K.client_disable_cache_for ("Secret" ∷ "ConfigMap" ∷ []) c.manager)
      ∷ add_to_scheme controller_scheme
      ∷ add_to_scheme calico_scheme
      ∷ add_to_scheme resource_manager_scheme
      ∷ add_network_controller (record {
        actuator = record {
          logger = log_id;
          chart_renderer_factory = P.new_chart_renderer_for_shoot;
          rest_config = none;
          client = none;
          gardener_clientset = none;
          chart_applier = none;
        };
        controller_options = c.controller P.zero_controller_options;
        predicates = P.default_predicates c.ignore_operation_annotation;
        type = "calico";
      })
      ∷ default_registration "calico" "Network"
          (record {
            controller = c.health_check_controller P.zero_controller_options;
            health_check_config =
                get_or configuration.health_check_config
                  (record { sync_period = default_sync_period });
          })
          (record {
            condition_type = "SystemComponentsHealthy";
            managed_resource = "extension-networking-calico-config";
          }
            ∷ [])
      ∷ start
      ∷ []

  complete_options-config :
      (o : CommandOptions C) {c : CompletedOptions P C}
      → complete_options F K o ≡ ok c
      → (configuration : ControllerConfiguration C) × (c.config
          ≡ some (record { config = configuration }))
        × (load_from_file F o.config.config_file_path ≡ ok configuration)
  unfolding complete_options completed options
  complete_options-config o h =
      let (rest, _, h) = >>=-eq-ok K.rest _ h in
      let (manager, _, h) = >>=-eq-ok (K.manager _ _ _) _ h in
      let (controller, _, h) = >>=-eq-ok (K.controller o.max_concurrent_reconciles) _ h in
      let (health, _, h) = >>=-eq-ok (K.controller o.health_check_max_concurrent_reconciles) _ h in
      let (ignore, _, h) = >>=-eq-ok (K.reconciler o.ignore_operation_annotation) _ h in
      let (_, done, h) = >>=-eq-ok (complete F o.config).0 _ h in
      let (config, e, _, loaded, _) =
        complete-options F o.config (record { sync_period = 0 })
          (λ i. (done i, (complete F o.config).1)) in
      (config.config, ap (λ x. x.config) (sym (ok-injective h)) ∙ e, loaded)

  module _ (H : Host P) where
    run_completed-startup_calls :
        (c : CompletedOptions P C) (configuration : ControllerConfiguration C)
        → c.config ≡ some (record { config = configuration })
        → (s : H.State)
        → ended (run_completed F K H c s) ≡ ended (perform_all H (startup_calls c configuration) s)
    unfolding run_completed add_to_manager add_health_check_to_manager add_to_manager_with_options
        register_health_checks new_actuator
    run_completed-startup_calls c configuration e s =
        rw
          (
            e,
            apply_health_check_config_lem configuration configuration.health_check_config
                (record { sync_period = default_sync_period }) refl,
          )
          (ended-six_exits _ _ _ _ _ _ (H.perform _) (H.perform _) (H.perform _) (H.perform _)
            (H.perform _) (H.perform _) (H.perform start) s)

    -- Where the options are completed, the configuration was loaded from the file, and the command makes
    -- these calls in this order, up to the first that does not succeed: it ends in the same state, and
    -- well exactly if they all do.
    pub run_command-startup_calls :
        (o : CommandOptions C) (s : H.State) {c : CompletedOptions P C}
        → complete_options F K o ≡ ok c
        → (configuration : ControllerConfiguration C) × (load_from_file F o.config.config_file_path
            ≡ ok configuration)
          × (ended (run_command F K H o s)
              ≡ ended (perform_all H (startup_calls c configuration) s))
    unfolding run_command
    run_command-startup_calls o s {c} h =
        let (configuration, e, loaded) = complete_options-config o h in
        (configuration, loaded, rw h (run_completed-startup_calls c configuration e s))
