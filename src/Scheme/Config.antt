-- ===== src/Scheme/Config.antt =====
-- pkg/apis/config/register.go, pkg/apis/config/v1alpha1/register.go, defaults.go and
-- zz_generated.conversion.go (its registration), and pkg/apis/config/install/install.go.
use gardener_extension_netwo.Prelude.{String, List, [], ◌∷◌}
use gardener_extension_netwo.Prelude.Result.{ok}
use gardener_extension_netwo.Actuator.Seed.{Action, lift, ◌>>◌}
use gardener_extension_netwo.Scheme.{
  GroupKind, GroupResource, group_kind, group_resource, register, GroupVersion,
  api_version_internal, add_known_types, add_generated_conversion_func, set_version_priority,
  Schemes, add_all, must_succeed,
}

abbrev pub config_group_name : String
config_group_name = "calico.networking.extensions.config.gardener.cloud"

abbrev pub config_group_version : GroupVersion
config_group_version = record { group = config_group_name; version = "v1alpha1" }

abbrev pub internal_config_group_version : GroupVersion
internal_config_group_version = record { group = config_group_name; version = api_version_internal }

-- `Kind` and `Resource`.
unfoldable pub internal_config_kind : String → GroupKind
internal_config_kind kind = group_kind internal_config_group_version kind

unfoldable pub internal_config_resource : String → GroupResource
internal_config_resource resource = group_resource internal_config_group_version resource

unfoldable pub config_resource : String → GroupResource
config_resource resource = group_resource config_group_version resource

module _ (S : Schemes) where
  unfoldable pub register_config_conversions : Action S.Scheme (Unit {0})
  register_config_conversions = do
    S.perform (
        add_generated_conversion_func config_group_version internal_config_group_version
          "ControllerConfiguration")
    S.perform (
        add_generated_conversion_func internal_config_group_version config_group_version
          "ControllerConfiguration")
    lift (ok tt)

  abbrev pub add_config_known_types : Action S.Scheme (Unit {0})
  add_config_known_types =
      S.perform (add_known_types config_group_version ("ControllerConfiguration" ∷ []))

  abbrev pub add_internal_config_known_types : Action S.Scheme (Unit {0})
  add_internal_config_known_types =
      S.perform (add_known_types internal_config_group_version ("ControllerConfiguration" ∷ []))

  -- There are no defaults.
  abbrev pub register_config_defaults : Action S.Scheme (Unit {0})
  register_config_defaults = lift (ok tt)

  abbrev pub add_config_defaulting_funcs : Action S.Scheme (Unit {0})
  add_config_defaulting_funcs = register_config_defaults

  -- The `init` of register.go, and that of zz_generated.conversion.go.
  abbrev pub config_register_init :
      List (Action S.Scheme (Unit {0})) → List (Action S.Scheme (Unit {0}))
  config_register_init builder =
      register builder (add_config_defaulting_funcs ∷ add_config_known_types ∷ [])

  abbrev pub config_conversion_init :
      List (Action S.Scheme (Unit {0})) → List (Action S.Scheme (Unit {0}))
  config_conversion_init builder = register builder (register_config_conversions ∷ [])

  unfoldable pub add_v1alpha1_config_to_scheme : Action S.Scheme (Unit {0})
  add_v1alpha1_config_to_scheme = add_all (config_conversion_init (config_register_init []))

  unfoldable pub add_internal_config_to_scheme : Action S.Scheme (Unit {0})
  add_internal_config_to_scheme = add_all (add_internal_config_known_types ∷ [])

  abbrev pub set_config_priority : Action S.Scheme (Unit {0})
  set_config_priority = S.perform (set_version_priority config_group_version)

  -- `AddToScheme` of the package install.
  unfoldable pub add_config_to_scheme : Action S.Scheme (Unit {0})
  add_config_to_scheme =
      add_all
        (add_v1alpha1_config_to_scheme ∷ add_internal_config_to_scheme ∷ set_config_priority ∷ [])

  unfoldable pub install_config : Action S.Scheme (Unit {0})
  install_config = must_succeed add_config_to_scheme

  -- What the `init` of pkg/apis/config/loader/loader.go does to its new scheme.
  unfoldable pub loader_init : Action S.Scheme (Unit {0})
  loader_init = install_config
