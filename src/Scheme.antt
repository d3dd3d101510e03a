-- ===== src/Scheme.antt =====
-- Schemes of apimachinery: the calls that register types and conversions, as data, and builders.
pub mod Calico
pub mod Config
pub mod Installed
pub mod Codecs
use gardener_extension_netwo.Prelude.{String, List, [], ◌∷◌, ◌++◌}
use gardener_extension_netwo.Prelude.Result.{Result, ok, must}
use gardener_extension_netwo.Actuator.Seed.{Action, lift, ◌>>=◌, ◌>>◌}

-- `schema.GroupVersion`
pub record GroupVersion : Type 0 where
  pub group : String
  pub version : String

-- `schema.GroupKind` and `schema.GroupResource`.
pub record GroupKind : Type 0 where
  pub group : String
  pub kind : String

pub record GroupResource : Type 0 where
  pub group : String
  pub resource : String

-- `WithKind(kind).GroupKind()` and `WithResource(resource).GroupResource()`
abbrev pub group_kind : GroupVersion → String → GroupKind
group_kind version kind = record { group = version.group; kind = kind }

abbrev pub group_resource : GroupVersion → String → GroupResource
group_resource version resource = record { group = version.group; resource = resource }

-- `runtime.APIVersionInternal`
abbrev pub api_version_internal : String
api_version_internal = "__internal"

-- `AddKnownTypes`, with the types by their names; `AddGeneratedConversionFunc`, from the type of this
-- name in one group and version to that in another; and `SetVersionPriority`.
pub data SchemeCall : Type 0 where
  add_known_types : GroupVersion → List String → SchemeCall
  add_generated_conversion_func : GroupVersion → GroupVersion → String → SchemeCall
  set_version_priority : GroupVersion → SchemeCall

-- What carries the calls out.
pub record Schemes : Type 1 where
  pub Scheme : Type 0
  pub perform : SchemeCall → Scheme → Result (Unit {0}) × Scheme

module _ {S : Type 0} where
  -- `SchemeBuilder.AddToScheme`: its functions in order, up to the first error.
  abbrev pub add_all : List (Action S (Unit {0})) → Action S (Unit {0})
  add_all [] = lift (ok tt)
  add_all (f ∷ fs) = f >> add_all fs

  -- `SchemeBuilder.Register`: a builder is the functions that it has been given, in order.
  abbrev pub register :
      List (Action S (Unit {0})) → List (Action S (Unit {0})) → List (Action S (Unit {0}))
  register builder functions = builder ++ functions

  -- `utilruntime.Must` around an action.
  abbrev pub must_succeed : Action S (Unit {0}) → Action S (Unit {0})
  must_succeed f s = let (r, t) = f s in (must r, t)
