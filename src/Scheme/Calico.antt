-- ===== src/Scheme/Calico.antt =====
-- pkg/apis/calico/register.go, pkg/apis/calico/v1alpha1/register.go, defaults.go and
-- zz_generated.conversion.go (its registration), and pkg/apis/calico/install/install.go.
use gardener_extension_netwo.Prelude.{String, List, [], ◌∷◌}
use gardener_extension_netwo.Prelude.Result.{ok}
use gardener_extension_netwo.Actuator.Seed.{Action, lift, ◌>>◌}
use gardener_extension_netwo.Actuator.Status.{group_name}
use gardener_extension_netwo.Scheme.{
  GroupKind, GroupResource, group_kind, group_resource, register, GroupVersion,
  api_version_internal, add_known_types, add_generated_conversion_func, set_version_priority,
  Schemes, add_all, must_succeed,
}

abbrev pub scheme_group_version : GroupVersion
scheme_group_version = record { group = group_name; version = "v1alpha1" }

abbrev pub internal_scheme_group_version : GroupVersion
internal_scheme_group_version = record { group = group_name; version = api_version_internal }

-- `Kind` and `Resource`.
unfoldable pub internal_kind : String → GroupKind
internal_kind kind = group_kind internal_scheme_group_version kind

unfoldable pub internal_resource : String → GroupResource
internal_resource resource = group_resource internal_scheme_group_version resource

unfoldable pub v1alpha1_resource : String → GroupResource
v1alpha1_resource resource = group_resource scheme_group_version resource

module _ (S : Schemes) where
  abbrev pub add_v1alpha1_known_types : Action S.Scheme (Unit {0})
  add_v1alpha1_known_types =
      S.perform (add_known_types scheme_group_version ("NetworkConfig" ∷ "NetworkStatus" ∷ []))

  abbrev pub add_internal_known_types : Action S.Scheme (Unit {0})
  add_internal_known_types =
      S.perform
        (add_known_types internal_scheme_group_version ("NetworkConfig" ∷ "NetworkStatus" ∷ []))

  -- There are no defaults.
  abbrev pub register_defaults : Action S.Scheme (Unit {0})
  register_defaults = lift (ok tt)

  abbrev pub add_defaulting_funcs : Action S.Scheme (Unit {0})
  add_defaulting_funcs = register_defaults

  abbrev convert_from_v1alpha1 : String → Action S.Scheme (Unit {0})
  convert_from_v1alpha1 type =
      S.perform
        (add_generated_conversion_func scheme_group_version internal_scheme_group_version type)

  abbrev convert_to_v1alpha1 : String → Action S.Scheme (Unit {0})
  convert_to_v1alpha1 type =
      S.perform
        (add_generated_conversion_func internal_scheme_group_version scheme_group_version type)

  unfoldable pub register_conversions : Action S.Scheme (Unit {0})
  register_conversions = do
    convert_from_v1alpha1 "IPAM"
    convert_to_v1alpha1 "IPAM"
    convert_from_v1alpha1 "IPv4"
    convert_to_v1alpha1 "IPv4"
    convert_from_v1alpha1 "NetworkConfig"
    convert_to_v1alpha1 "NetworkConfig"
    convert_from_v1alpha1 "NetworkStatus"
    convert_to_v1alpha1 "NetworkStatus"
    convert_from_v1alpha1 "Typha"
    convert_to_v1alpha1 "Typha"
    lift (ok tt)

  -- What the `init` of register.go does to the package's builder, and that of
  -- zz_generated.conversion.go.
  abbrev pub register_init : List (Action S.Scheme (Unit {0})) → List (Action S.Scheme (Unit {0}))
  register_init builder = register builder (add_defaulting_funcs ∷ add_v1alpha1_known_types ∷ [])

  abbrev pub conversion_init : List (Action S.Scheme (Unit {0})) → List (Action S.Scheme (Unit {0}))
  conversion_init builder = register builder (register_conversions ∷ [])

  -- The files of a package are initialised in the order of their names.
  unfoldable pub add_v1alpha1_to_scheme : Action S.Scheme (Unit {0})
  add_v1alpha1_to_scheme = add_all (conversion_init (register_init []))

  unfoldable pub add_internal_to_scheme : Action S.Scheme (Unit {0})
  add_internal_to_scheme = add_all (add_internal_known_types ∷ [])

  abbrev pub set_v1alpha1_priority : Action S.Scheme (Unit {0})
  set_v1alpha1_priority = S.perform (set_version_priority scheme_group_version)

  -- `AddToScheme` of the package install.
  unfoldable pub add_to_scheme : Action S.Scheme (Unit {0})
  add_to_scheme =
      add_all (add_v1alpha1_to_scheme ∷ add_internal_to_scheme ∷ set_v1alpha1_priority ∷ [])

  unfoldable pub install : Action S.Scheme (Unit {0})
  install = must_succeed add_to_scheme

  -- What the `init` of pkg/apis/calico/v1alpha1/helper/decode.go does to its new scheme.
  unfoldable pub decode_init : Action S.Scheme (Unit {0})
  decode_init = must_succeed add_to_scheme
