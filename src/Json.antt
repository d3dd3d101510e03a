-- ===== src/Json.antt =====
-- JSON values, which are also what a Go `map[string]interface{}` of chart values holds.
pub mod Characters
pub mod Documents
pub mod Lexer
pub mod Maps
use gardener_extension_netwo.Prelude.{
  String, Bool, Option, none, some, List, [], ◌∷◌, ◌==◌, if◌then◌else◌,
}

mutual
  pub data Value : Type 0 where
    null : Value
    boolean : Bool → Value
    text : String → Value
    object : Members → Value

  -- The members of an object, or the entries of a map in some order.
  pub data Members : Type 0 where
    end : Members
    member : String → Value → Members → Members

-- A `*string` that may be nil, as a value.
abbrev pub optional_text : Option String → Value
optional_text none = null
optional_text (some s) = text s

-- `m[k]`
abbrev pub lookup : String → Members → Option Value
lookup k end = none
lookup k (member j v m) = if j == k then some v else lookup k m

-- `m[k] = v`
abbrev pub insert : String → Value → Members → Members
insert k v end = member k v end
insert k v (member j w m) = if j == k then member k v m else member j w (insert k v m)

abbrev pub in_value : (Members → Option Value) → Value → Option Value
in_value f (object m) = f m
in_value f _ = none

-- The value at a path of keys through nested maps.
abbrev pub at_path : List String → Value → Option Value
at_path [] v = some v
at_path (k ∷ ks) (object m) = elim (lookup k m) [ none ↦ none | some v ↦ at_path ks v ]
at_path (k ∷ ks) _ = none
