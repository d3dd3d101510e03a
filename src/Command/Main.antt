-- ===== src/Command/Main.antt =====
-- cmd/gardener-extension-networking-calico: main.go, and the command that
-- `NewControllerManagerCommand` in app/app.go makes.
pub mod Startup
use gardener_extension_netwo.Prelude.{ℕ, String, ◌<>◌, Bool, Option, none, some, List, [], ◌∷◌}
use gardener_extension_netwo.Prelude.Result.{Result, ok}
use gardener_extension_netwo.Actuator.Seed.{Action, lift, ◌>>=◌}
use gardener_extension_netwo.Actuator.Reconcile.{wrapping}
use gardener_extension_netwo.Calico.{name}
use gardener_extension_netwo.Command.Config.{Flag, Loaders, add_flags}
use gardener_extension_netwo.Command.Setup.{Platform, Host}
use gardener_extension_netwo.Command.Options.{CommandOptions, new_command_options, Completers}
use gardener_extension_netwo.Command.Run.{run_command}

-- The flag sets of pflag, with `AddFlags` of gardener's options, which take the values of these for
-- their defaults, and `PrefixOption`. `parse` is what cobra's `Execute` does before `Run`: the options
-- are as the arguments set them, or `none` where they only ask for help.
pub record FlagSets (C : Type 0) : Type 1 where
  pub FlagSet : Type 0
  pub new_flag_set : FlagSet
  pub add_flag : Flag → FlagSet → FlagSet
  pub add_rest_flags : FlagSet → FlagSet
  pub add_manager_flags : Bool → String → String → FlagSet → FlagSet
  pub add_controller_flags : ℕ → FlagSet → FlagSet
  pub add_reconciler_flags : Bool → FlagSet → FlagSet
  pub prefix_option : String → (FlagSet → FlagSet) → FlagSet → FlagSet
  pub parse : FlagSet → List String → CommandOptions C → Result (Option (CommandOptions C))

module _ {C : Type 0} (G : FlagSets C) where
  -- `cobra.Command`, with the options that its `Run` has from the function around it.
  pub record CobraCommand : Type 0 where
    pub use_line : String
    pub flags : G.FlagSet
    pub options : CommandOptions C

  abbrev pub add_each : List Flag → G.FlagSet → G.FlagSet
  add_each [] flags = flags
  add_each (f ∷ fs) flags = add_each fs (G.add_flag f flags)

  -- `aggOption.AddFlags`, in the order of the options; the file's flag resets the variable it is for.
  unfoldable pub add_all_flags : CommandOptions C → G.FlagSet → CommandOptions C × G.FlagSet
  add_all_flags o flags =
      let flags = G.add_rest_flags flags in
      let flags =
        G.add_manager_flags o.leader_election o.leader_election_id o.leader_election_namespace
          flags in
      let flags = G.add_controller_flags o.max_concurrent_reconciles flags in
      let flags =
        G.prefix_option "healthcheck-"
          (G.add_controller_flags o.health_check_max_concurrent_reconciles) flags in
      let flags = G.add_reconciler_flags o.ignore_operation_annotation flags in
      let (config, added) = add_flags o.config [] in
      (record o { config = config }, add_each added flags)

  unfoldable pub new_controller_manager_command : String → CobraCommand
  new_controller_manager_command namespace =
      let (options, flags) = add_all_flags (new_command_options namespace) G.new_flag_set in
      record { use_line = name <> "-controller-manager"; flags = flags; options = options }

module _ {P : Platform} {C : Type 0} (G : FlagSets C) (F : Loaders C) (K : Completers P C)
    (H : Host P) where
  -- `Run`, or only the help.
  abbrev pub run_if_parsed : Option (CommandOptions C) → Action H.State (Unit {0})
  run_if_parsed none = lift (ok tt)
  run_if_parsed (some o) = run_command F K H o

  -- `main`, for the value of LEADER_ELECTION_NAMESPACE and the arguments. An exit is an error here.
  unfoldable pub main : String → List String → Action H.State (Unit {0})
  main namespace arguments = do
    let cmd = new_controller_manager_command G namespace
    parsed ← lift (
        wrapping "error executing the main controller command"
          (G.parse cmd.flags arguments cmd.options))
    run_if_parsed parsed
