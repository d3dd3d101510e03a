-- ===== src/Store/Stable.antt =====
-- Readings that stay what they are while a memory grows.
use mathlib.Core.Option
use mathlib.Core.Option.{none-ne-some}
use gardener_extension_netwo.Prelude.{
  ◌≡◌, sym, ap, ◌∙◌, Option, none, some, List, arith, and_then, and_then-eq-some, map-some-eq-some,
}
use gardener_extension_netwo.Store.{at_ptr}
use gardener_extension_netwo.Store.Copies.{Own, at_ptr-Own, optional, through}

module _ {Cell : Type 0} where
  -- A reading that stays what it is while the memory grows.
  abbrev pub Stable : {A V : Type 0} → (A → List Cell → Option V) → Type 0
  Stable {A} {V} read = (s : A) (m : List Cell) (v : V) → read s m ≡ some v → Own 0 m (read s) v

  module _ {A V : Type 0} (part : Cell → Option A) (read : A → List Cell → Option V)
      (stable : Stable read) where
    pub through-Stable : Stable (through part read)
    through-Stable p m v h = λ o agree.
        let (s, e, f) = and_then-eq-some (at_ptr part m p) _ h in
        ap (λ x. and_then x (λ a. read a o)) (at_ptr-Own part 0 m p (omega arith) e o agree)
        ∙ stable s m v f o agree

    pub field-Stable : Stable (optional (through part read))
    field-Stable none m v h = λ o agree. h
    field-Stable (some p) m v h = λ o agree.
        let (w, e, f) = map-some-eq-some (through part read p m) h in
        ap (Option.map some) (through-Stable p m w e o agree) ∙ ap some (sym f)
