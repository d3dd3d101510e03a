-- ===== src/Store.antt =====
-- Pointers: a memory is a list of cells of some type, and a command may read and write it.
pub mod Casts
pub mod Copies
pub mod Sizes
pub mod Stable
use gardener_extension_netwo.Prelude.{
  ℕ, Option, none, some, List, [], ◌∷◌, ◌++◌, length, get_elem?, set, and_then,
}

abbrev pub Ptr : Type 0
Ptr = ℕ

-- `none` is a fault: a read through a pointer that points to nothing, or to another type.
abbrev pub Command : Type 0 → Type 0 → Type 0
Command Cell A = List Cell → Option (A × List Cell)

module _ {Cell : Type 0} where
  abbrev pub pure : {A : Type 0} → A → Command Cell A
  pure a m = some (a, m)

  infixl 5 ◌>>=◌ ◌>>◌
  abbrev pub ◌>>=◌ : {A B : Type 0} → Command Cell A → (A → Command Cell B) → Command Cell B
  ◌>>=◌ c f m = and_then (c m) (λ (a, m'). f a m')

  abbrev pub ◌>>◌ : {B : Type 0} → Command Cell (Unit {0}) → Command Cell B → Command Cell B
  c >> k = c >>= λ _. k

  -- `new(T)`, with a cell that holds the zero value.
  abbrev pub new : Cell → Command Cell Ptr
  new zero_value m = some (length m, m ++ zero_value ∷ [])

  abbrev pub store : Ptr → Cell → Command Cell (Unit {0})
  store p c m = some (tt, set m p c)

  -- `*p`, for the part of a cell that holds the type of `*p`.
  abbrev pub at_ptr : {A : Type 0} → (Cell → Option A) → List Cell → Ptr → Option A
  at_ptr part m p = and_then (get_elem? m p) part

  abbrev pub load : {A : Type 0} → (Cell → Option A) → Ptr → Command Cell A
  load part p m = and_then (at_ptr part m p) (λ a. some (a, m))

  -- `if in.F != nil { *out = new(T); copy the target }`, for a way to copy the target.
  abbrev pub copy_field :
      Cell → (Ptr → Ptr → Command Cell (Unit {0})) → Option Ptr → Command Cell (Option Ptr)
  copy_field zero_value copy none = pure none
  copy_field zero_value copy (some p) = do q ← new zero_value; copy p q; pure (some q)
