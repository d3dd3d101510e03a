-- ===== src/Tests/Command/Main.antt =====
-- The program, from its arguments.
use gardener_extension_netwo.Prelude.{
  ◌≡◌, refl, ℕ, String, ◌<>◌, Bool, true, false, Option, none, some, List, [], ◌∷◌, ◌++◌, ◌==◌,
  if◌then◌else◌, map,
}
use gardener_extension_netwo.Prelude.Result.{Result, ok, err, errorf, wrap}
use gardener_extension_netwo.Command.Config.{ControllerConfiguration, load_from_file, add_flags}
use gardener_extension_netwo.Command.Options.{CommandOptions, new_command_options}
use gardener_extension_netwo.Command.Run.Started.{ended, perform_all, startup_calls}
use gardener_extension_netwo.Command.Main.{
  FlagSets, add_all_flags, new_controller_manager_command, main,
}
use gardener_extension_netwo.Command.Main.Startup.{main-startup_calls}
use gardener_extension_netwo.Tests.Command.{
  loaders, completers, host, command_options, completed_options, complete_options_lem,
}

abbrev contains : String → List String → Bool
contains x [] = false
contains x (y ∷ ys) = if x == y then true else contains x ys

-- No argument, `--help`, or the path of the file.
abbrev parse : List String → List String → CommandOptions ℕ → Result (Option (CommandOptions ℕ))
parse flags [] o = ok (some o)
parse flags (argument ∷ []) o =
    if argument == "--help" then ok none else err (errorf "unknown flag")
parse flags (argument ∷ value ∷ rest) o =
    if argument == "--config-file"
    then if contains "config-file" flags
      then ok (some (record o { config = record o.config { config_file_path = value } }))
      else err (errorf "unknown flag")
    else err (errorf "unknown flag")

-- A set of flags is the list of their names.
abbrev flag_sets : FlagSets ℕ
flag_sets = record {
  FlagSet = List String;
  new_flag_set = [];
  add_flag = λ flag names. names ++ flag.name ∷ [];
  add_rest_flags = λ names. names ++ "kubeconfig" ∷ "master" ∷ [];
  add_manager_flags = λ elects id namespace names. names ++ "leader-election" ∷ [];
  add_controller_flags = λ concurrent names. names ++ "max-concurrent-reconciles" ∷ [];
  add_reconciler_flags = λ ignore names. names ++ "ignore-operation-annotation" ∷ [];
  prefix_option = λ prefix add names. names ++ map (λ name. prefix <> name) (add []);
  parse = parse;
}

flags_lem :
    (new_controller_manager_command flag_sets "garden").flags
    ≡ "kubeconfig" ∷ "master" ∷ "leader-election" ∷ "max-concurrent-reconciles"
      ∷ "healthcheck-max-concurrent-reconciles" ∷ "ignore-operation-annotation" ∷ "config-file" ∷ []
unfolding new_controller_manager_command add_all_flags add_flags new_command_options
flags_lem = refl

abbrev arguments : List String
arguments = "--config-file" ∷ "config.yaml" ∷ []

parse_lem :
    parse
      (new_controller_manager_command flag_sets "garden").flags
      arguments
      (new_controller_manager_command flag_sets "garden").options
    ≡ ok (some command_options)
unfolding new_controller_manager_command add_all_flags add_flags new_command_options
parse_lem = refl

main-startup_calls_example :
    (given : ControllerConfiguration ℕ) × (load_from_file loaders "config.yaml" ≡ ok given)
    × (ended (main flag_sets loaders completers host "garden" arguments 0)
        ≡ ended (perform_all host (startup_calls loaders completers completed_options given) 0))
main-startup_calls_example =
    main-startup_calls flag_sets loaders completers host "garden" arguments 0 {o = command_options}
      {c = completed_options} parse_lem complete_options_lem

-- Help makes no call, and neither does a wrong flag.
help_lem : main flag_sets loaders completers host "garden" ("--help" ∷ []) 0 ≡ (ok tt, 0)
unfolding main
help_lem = refl

unknown_flag_lem :
    main flag_sets loaders completers host "garden" ("--verbose" ∷ []) 0
    ≡ (err (wrap "error executing the main controller command" (errorf "unknown flag")), 0)
unfolding main
unknown_flag_lem = refl
