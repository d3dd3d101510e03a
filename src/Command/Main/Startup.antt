-- ===== src/Command/Main/Startup.antt =====
-- main.go with app/app.go: from the arguments to the calls of the manager.
use gardener_extension_netwo.Prelude.{◌≡◌, String, some, List}
use gardener_extension_netwo.Prelude.Result.{ok}
use gardener_extension_netwo.Command.Config.{ControllerConfiguration, Loaders, load_from_file}
use gardener_extension_netwo.Command.Setup.{Platform, Host}
use gardener_extension_netwo.Command.Options.{
  CommandOptions, Completers, CompletedOptions, complete_options,
}
use gardener_extension_netwo.Command.Run.Started.{
  ended, perform_all, startup_calls, run_command-startup_calls,
}
use gardener_extension_netwo.Command.Main.{FlagSets, new_controller_manager_command, main}

module _ {P : Platform} {C : Type 0} (G : FlagSets C) (F : Loaders C) (K : Completers P C)
    (H : Host P) where
  -- Where the arguments set the options and these are completed, the configuration was loaded from the
  -- file of the options, and the program makes these calls to the manager in this order, up to the first
  -- that does not succeed: it ends in the same state, and well exactly if they all do.
  pub main-startup_calls :
      (namespace : String) (arguments : List String) (s : H.State) {o : CommandOptions C}
      {c : CompletedOptions P C}
      → G.parse
          (new_controller_manager_command G namespace).flags
          arguments
          (new_controller_manager_command G namespace).options
        ≡ ok (some o)
      → complete_options F K o ≡ ok c
      → (configuration : ControllerConfiguration C) × (load_from_file F o.config.config_file_path
          ≡ ok configuration)
        × (ended (main G F K H namespace arguments s)
            ≡ ended (perform_all H (startup_calls F K c configuration) s))
  unfolding main
  main-startup_calls namespace arguments s {o} {c} parsed completed =
      rw parsed (run_command-startup_calls F K H o s {c = c} completed)
