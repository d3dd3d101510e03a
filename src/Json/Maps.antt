-- ===== src/Json/Maps.antt =====
-- Go's maps: the entries, in no order.
use native.Mathlib.Nat.{ℕ_set}
use text.Mathlib.TextEquality.{IsScalar-prop}
use mathlib.Core.Quot
use mathlib.Core.Quot.{Quot, Quot-set}
use gardener_extension_netwo.Prelude.{
  ◌≡◌, refl, ap, String, Option, none, some, List, [], ◌∷◌, ◌==◌, Bool-cases, inl, inr, subst,
  eq_iff, Option-cases,
}
use gardener_extension_netwo.Json.{Value, object, Members, end, member, lookup, at_path}

-- A value, without the entries of a map, which are at the paths below it.
abbrev pub shape : Value → Value
shape (object m) = object end
shape v = v

abbrev pub shape_at : List String → Value → Option Value
shape_at path v = elim (at_path path v) [ none ↦ none | some w ↦ some (shape w) ]

-- The two have the same at each path.
abbrev pub AgreeAt : Value → Value → Type 0
AgreeAt v w = (path : List String) → shape_at path v ≡ shape_at path w

abbrev pub Agree : Members → Members → Type 0
Agree m n = AgreeAt (object m) (object n)

-- `map[string]interface{}`
abbrev pub GoMap : Type 0
GoMap = Quot Agree

abbrev pub go_map : Members → GoMap
go_map m = Quot.mk m

Value-set : IsSet (Option Value)
Value-set = hlevel (IsScalar-prop, ℕ_set)

-- Lists of entries that are the same map agree.
pub go_map-Agree : (m n : Members) → go_map m ≡ go_map n → Agree m n
go_map-Agree m n h path =
    ap (Quot.lift Value-set (λ m. shape_at path (object m)) (λ m n h. h path)) h

-- A value like this one under this key.
pub record Has (k : String) (v : Value) (n : Members) : Type 0 where
  pub value : Value
  pub found : lookup k n ≡ some value
  pub alike : AgreeAt v value

-- The second has all entries of the first.
abbrev pub Covers : Members → Members → Type 0
Covers end n = Unit
Covers (member k v m) n = Has k v n × Covers m n

abbrev pub like :
    {k : String} {v w : Value} {n : Members} → lookup k n ≡ some w → AgreeAt v w → Has k v n
like {w = w} e h = record { value = w; found = e; alike = h }

abbrev pub same : {k : String} {v : Value} {n : Members} → lookup k n ≡ some v → Has k v n
same e = like e (λ path. refl)

abbrev pub ◌◂◌ : {A B : Type 0} → A → B → A × B
a ◂ b = (a, b)

infixr 50 ◌◂◌
Covers-lookup :
    (k : String) (m n : Members) {v : Value} → Covers m n → lookup k m ≡ some v → Has k v n
Covers-lookup k end n c h = cc
Covers-lookup k (member j u m) n {v} (has, c) h = elim (Bool-cases (j == k)) [
  | inl e' ↦
      let p : j ≡ k = (eq_iff j k).0 e' in
      let q : u ≡ v = cc (rw e' at h) in subst (λ i. Has i v n) p (subst (λ x. Has j x n) q has)
  | inr e' ↦ Covers-lookup k m n c (rw e' at h)
]

Covers-none : (k : String) (m n : Members) → Covers m n → lookup k n ≡ none → lookup k m ≡ none
Covers-none k m n c h = elim (Option-cases (lookup k m)) [
  | inl e ↦ e
  | inr (v, e) ↦ let has = Covers-lookup k m n c e in cc (has.found)
]

-- Lists that have each other's entries are one map, whatever the order and however often.
pub Covers-Agree : (m n : Members) → Covers m n → Covers n m → Agree m n
Covers-Agree m n c d [] = refl
Covers-Agree m n c d (k ∷ ks) = elim (Option-cases (lookup k m)) [
  | inl e ↦ rw (shape_at, e, Covers-none k n m d e) refl
  | inr (v, e) ↦ let has = Covers-lookup k m n c e in rw (shape_at, e, has.found) (has.alike ks)
]
