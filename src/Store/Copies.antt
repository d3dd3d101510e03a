-- ===== src/Store/Copies.antt =====
-- What it means that a command copies a value, and the rules for it.
use mathlib.Core.Option
use mathlib.Core.Option.{none-ne-some}
use gardener_extension_netwo.Prelude.{
  List, map-some-eq-some, ◌≡◌, ◌≢◌, refl, sym, ap, ◌∙◌, subst, ℕ, suc, ◌≤◌, ◌<◌, Option, none, some,
  [], ◌∷◌, ◌++◌, arith, length, and_then, and_then-eq-some, get_elem?, set, length-append,
  get_elem?-append, lt-length, length-set, get_elem?-set_self, get_elem?-set_ne,
}
use gardener_extension_netwo.Store.{Ptr, Command, pure, ◌>>=◌, store, at_ptr, load, copy_field}

module _ {Cell : Type 0} where
  -- `m'` has the cells that `m` has from address `n` on.
  abbrev pub Agree : ℕ → List Cell → List Cell → Type 0
  Agree n m m' = (p : Ptr) (c : Cell) → n ≤ p → get_elem? m p ≡ some c → get_elem? m' p ≡ some c

  -- `m'` is `m` with more cells.
  pub record Extends (m m' : List Cell) : Type 0 where
    pub cells : Agree 0 m m'
    pub longer : length m ≤ length m'

  -- A reading gives `v` in `m`, and in every memory that has its cells from address `n` on: it depends
  -- on no cell below.
  abbrev pub Own {ℓ} : {V : Type ℓ} → ℕ → List Cell → (List Cell → Option V) → V → Type ℓ
  Own n m read v = (m' : List Cell) → Agree n m m' → read m' ≡ some v

  -- A command returns, leaves all cells as they were, and its result reads as `v` through cells from
  -- address `n` on alone.
  pub record IsCopy {A V : Type 0} (n : ℕ) (m : List Cell) (read : A → List Cell → Option V) (v : V)
      (r : Option (A × List Cell)) : Type 0 where
    pub out : A
    pub after : List Cell
    pub returns : r ≡ some (out, after)
    pub kept : Extends m after
    pub owned : Own n after (read out) v

  pub Agree-refl : (n : ℕ) (m : List Cell) → Agree n m m
  Agree-refl n m = λ p c h e. e

  pub Extends-refl : (m : List Cell) → Extends m m
  Extends-refl m = record { cells = Agree-refl 0 m; longer = omega arith }

  pub Extends-trans : {k m o : List Cell} → Extends k m → Extends m o → Extends k o
  Extends-trans x y = record {
    cells = λ p c h e. y.cells p c h (x.cells p c h e);
    longer = omega arith;
  }

  pub Extends-append : (m : List Cell) (c : Cell) → Extends m (m ++ c ∷ [])
  Extends-append m c = record {
    cells = λ p d h e. get_elem?-append m (c ∷ []) p e;
    longer = omega (arith, length-append m (c ∷ []));
  }

  pub Own-extends :
      {V : Type 0} {n : ℕ} {m m' : List Cell} (read : List Cell → Option V) {v : V}
      → Own n m read v
      → Extends m m'
      → Own n m' read v
  Own-extends read own x = λ o agree. own o (λ p c h e. agree p c h (x.cells p c (omega arith) e))

  -- A cell that is there reads the same wherever it is kept.
  pub at_ptr-Own :
      {A : Type 0} (part : Cell → Option A) (n : ℕ) (m : List Cell) (p : Ptr) {a : A}
      → n ≤ p
      → at_ptr part m p ≡ some a
      → Own n m (λ x. at_ptr part x p) a
  at_ptr-Own part n m p h e = λ o agree.
      let (c, there, f) = and_then-eq-some (get_elem? m p) part e in
      ap (λ x. and_then x part) (agree p c h there) ∙ f

  -- The reading of a pointer that may be nil.
  abbrev pub optional :
      {V : Type 0} → (Ptr → List Cell → Option V) → Option Ptr → List Cell → Option (Option V)
  optional read none m = some none
  optional read (some p) m = Option.map some (read p m)

  -- The reading of a struct through a pointer.
  abbrev pub through :
      {A V : Type 0} → (Cell → Option A) → (A → List Cell → Option V) → Ptr → List Cell → Option V
  through part read p m = and_then (at_ptr part m p) (λ a. read a m)

  -- A way to build a copy of a struct, in every memory and whatever is below.
  abbrev pub Builds : {A V : Type 0} → (A → List Cell → Option V) → (A → Command Cell A) → Type 0
  Builds {A} {V} read into =
      (n : ℕ) (m : List Cell) (s : A) (v : V)
      → n ≤ length m
      → Own 0 m (read s) v
      → IsCopy n m read v (into s m)

  -- `*out = new(T)`, then a way to build the target from the struct that `p` points to, then a store.
  abbrev pub copy_at :
      {A : Type 0}
      → (Cell → Option A)
      → (A → Cell)
      → (A → Command Cell A)
      → Ptr
      → Ptr
      → Command Cell (Unit {0})
  copy_at part wrap into p q = do s ← load part p; out ← into s; store q (wrap out)

  module _ {A V : Type 0} (part : Cell → Option A) (wrap : A → Cell)
      (part-wrap : (a : A) → part (wrap a) ≡ some a) (zero_value : Cell) (into : A → Command Cell A)
      (read : A → List Cell → Option V) (builds : Builds read into) where
    -- The struct that the pointer points to, and its reading.
    source :
        (m : List Cell) (p : Ptr) (v : V)
        → Own 0 m (through part read p) v
        → (s : A) × (at_ptr part m p ≡ some s) × Own 0 m (read s) v
    source m p v own =
        let (s, e, _) =
          and_then-eq-some (at_ptr part m p) (λ a. read a m) (own m (Agree-refl 0 m)) in
        (
          s,
          e,
          λ o agree.
              sym (
                ap (λ x. and_then x (λ a. read a o))
                  (at_ptr-Own part 0 m p (omega arith) e o agree))
              ∙ own o agree,
        )

    copy_field-some-IsCopy :
        (n : ℕ) (m : List Cell) (p : Ptr) (v : V)
        → n ≤ length m
        → Own 0 m (through part read p) v
        → IsCopy n m
            (optional (through part read))
            (some v)
            (copy_field zero_value (copy_at part wrap into) (some p) m)
    copy_field-some-IsCopy n m p v h own =
        let (s, e, own_s) = source m p v own in
        let q : Ptr = length m in
        let m₁ : List Cell = m ++ zero_value ∷ [] in
        let x₁ = Extends-append m zero_value in
        let grown : length m₁ ≡ suc q = omega (arith, length-append m (zero_value ∷ [])) in
        let r = builds (suc q) m₁ s v (omega arith) (Own-extends (read s) own_s x₁) in
        let there : at_ptr part m₁ p ≡ some s = at_ptr-Own part 0 m p (omega arith) e m₁ x₁.cells in
        let room : q < length r.after = omega (arith, r.kept.longer) in
        let other = λ (k : Ptr) (ne : q ≢ k). get_elem?-set_ne r.after q k (wrap r.out) ne in
        record {
          out = some q;
          after = set r.after q (wrap r.out);
          returns = rw (there, r.returns);
          kept = record {
            cells = λ k c _ there.
                other k (omega (arith, lt-length m k there))
                ∙ r.kept.cells k c (omega arith) (x₁.cells k c (omega arith) there);
            longer = omega (arith, length-set r.after q (wrap r.out));
          };
          owned = λ o agree.
              let found = agree q (wrap r.out) h (get_elem?-set_self r.after q (wrap r.out) room) in
              let target = ap (λ x. and_then x part) found ∙ part-wrap r.out in
              let inner =
                r.owned o
                  (λ k c far there. agree k c (omega arith) (other k (omega arith) ∙ there)) in
              ap (λ x. Option.map some (and_then x (λ a. read a o))) target
              ∙ ap (Option.map some) inner;
        }

    -- `if in.F != nil { … }` for such a copy.
    pub copy_field-IsCopy :
        (n : ℕ) (m : List Cell) (p : Option Ptr) (v : Option V)
        → n ≤ length m
        → Own 0 m (optional (through part read) p) v
        → IsCopy n m
            (optional (through part read))
            v
            (copy_field zero_value (copy_at part wrap into) p m)
    copy_field-IsCopy n m none v h own = record {
      out = none;
      after = m;
      returns = refl;
      kept = Extends-refl m;
      owned = λ o agree. own m (Agree-refl 0 m);
    }
    copy_field-IsCopy n m (some p) v h own =
        let (w, _, e) = map-some-eq-some (through part read p m) (own m (Agree-refl 0 m)) in
        subst
          (λ v.
            IsCopy n m (optional (through part read)) v
              (copy_field zero_value (copy_at part wrap into) (some p) m))
          (sym e)
          (copy_field-some-IsCopy n m p w h (λ o agree.
            let (u, f, g) = map-some-eq-some (through part read p o) (own o agree) in
            f ∙ sym g ∙ e))

  -- A way to copy what a pointer points to can be used when the memory has grown.
  pub IsCopy-later :
      {V : Type 0} {read : Option Ptr → List Cell → Option V}
      {copy : Option Ptr → Command Cell (Option Ptr)} {n : ℕ} {k m : List Cell}
      → ((n : ℕ) (m : List Cell) (p : Option Ptr) (v : V)
          → n ≤ length m
          → Own 0 m (read p) v
          → IsCopy n m read v (copy p m))
      → n ≤ length k
      → Extends k m
      → (p : Option Ptr) (v : V) → Own 0 k (read p) v
      → IsCopy n m read v (copy p m)
  IsCopy-later {read = read} {n = n} {m = m} copies h x p v own =
      copies n m p v (omega (arith, x.longer)) (Own-extends (read p) own x)

  pub IsCopy-pure :
      {A V : Type 0} (n : ℕ) (m : List Cell) (read : A → List Cell → Option V) (v : V) (a : A)
      → Own n m (read a) v
      → IsCopy n m read v (pure a m)
  IsCopy-pure n m read v a own = record {
    out = a;
    after = m;
    returns = refl;
    kept = Extends-refl m;
    owned = own;
  }
