-- ===== src/Store/Casts.antt =====
-- `(*B)(unsafe.Pointer(p))`: two types of one layout, read through the same pointers.
use mathlib.Core.Option
use gardener_extension_netwo.Prelude.{
  ◌≡◌, refl, ap, ◌∙◌, ℕ, Option, none, some, List, and_then, get_elem?, and_then-map, map-eq-some,
  sym, subst, [], ◌∷◌, ◌++◌, length,
}
use gardener_extension_netwo.Store.{Ptr, Command, at_ptr, store, copy_field}
use gardener_extension_netwo.Store.Copies.{IsCopy, optional, through, copy_at}

module _ {Cell : Type 0} {A B : Type 0} (part : Cell → Option A) (part' : Cell → Option B)
    (cast : A → B) (same : (c : Cell) → part' c ≡ Option.map cast (part c)) where
  at_ptr-cast : (m : List Cell) (p : Ptr) → at_ptr part' m p ≡ Option.map cast (at_ptr part m p)
  at_ptr-cast m p = and_then-map cast (get_elem? m p) part part' same

  module _ {V W : Type 0} (read : A → List Cell → Option V) (read' : B → List Cell → Option W)
      (f : V → W)
      (reads : (a : A) (m : List Cell) → read' (cast a) m ≡ Option.map f (read a m)) where
    of_target :
        (o : Option A) (m : List Cell)
        → and_then (Option.map cast o) (λ b. read' b m) ≡ Option.map f (and_then o (λ a. read a m))
    of_target none m = refl
    of_target (some a) m = reads a m

    pub through-cast :
        (p : Ptr) (m : List Cell) → through part' read' p m ≡ Option.map f (through part read p m)
    through-cast p m =
        ap (λ o. and_then o (λ b. read' b m)) (at_ptr-cast m p) ∙ of_target (at_ptr part m p) m

    map-some :
        (o : Option V)
        → Option.map some (Option.map f o) ≡ Option.map (Option.map f) (Option.map some o)
    map-some none = refl
    map-some (some v) = refl

    -- A pointer that reads as `v` at the one type reads as the value of `v` at the other.
    pub optional-cast :
        (p : Option Ptr) (m : List Cell)
        → optional (through part' read') p m
          ≡ Option.map (Option.map f) (optional (through part read) p m)
    optional-cast none m = refl
    optional-cast (some p) m =
        ap (Option.map some) (through-cast p m) ∙ map-some (through part read p m)

    -- A copy at the one type is a copy at the other.
    IsCopy-cast :
        (n : ℕ) (m : List Cell) (v : Option V) {r : Option (Option Ptr × List Cell)}
        → IsCopy n m (optional (through part read)) v r
        → IsCopy n m (optional (through part' read')) (Option.map f v) r
    IsCopy-cast n m v x = record {
      out = x.out;
      after = x.after;
      returns = x.returns;
      kept = x.kept;
      owned = λ o agree. optional-cast x.out o ∙ ap (Option.map (Option.map f)) (x.owned o agree);
    }

    -- A way to copy what reads at the one type copies what reads at the other.
    pub copies-cast :
        (n : ℕ) (m : List Cell) (p : Option Ptr) {r : Option (Option Ptr × List Cell)}
        → ((v : Option V)
            → optional (through part read) p m ≡ some v
            → IsCopy n m (optional (through part read)) v r)
        → (w : Option W) → optional (through part' read') p m ≡ some w
        → IsCopy n m (optional (through part' read')) w r
    copies-cast n m p {r} copies w h =
        let (v, e, q) =
          map-eq-some (Option.map f) (optional (through part read) p m)
            (sym (optional-cast p m) ∙ h) in
        subst (λ w. IsCopy n m (optional (through part' read')) w r) (sym q)
          (IsCopy-cast n m v (copies v e))

  module _ (wrap : A → Cell) (wrap' : B → Cell) (wraps : (a : A) → wrap' (cast a) ≡ wrap a)
      (into : A → Command Cell A) (into' : B → Command Cell B)
      (copies : (a : A) (m : List Cell)
        → into' (cast a) m ≡ Option.map (λ (x, n). (cast x, n)) (into a m)) where
    store_copy :
        (q : Ptr) (o : Option (A × List Cell))
        → and_then (Option.map (λ (x, n). (cast x, n)) o) (λ (b, n). store q (wrap' b) n)
          ≡ and_then o (λ (a, n). store q (wrap a) n)
    store_copy q none = refl
    store_copy q (some (a, n)) = ap (λ c. store q c n) (wraps a)

    copy_target :
        (q : Ptr) (m : List Cell) (o : Option A)
        → and_then
            (and_then (Option.map cast o) (λ b. some (b, m)))
            (λ (b, n). and_then (into' b n) (λ (x, n). store q (wrap' x) n))
          ≡ and_then
              (and_then o (λ a. some (a, m)))
              (λ (a, n). and_then (into a n) (λ (x, n). store q (wrap x) n))
    copy_target q m none = refl
    copy_target q m (some a) =
        ap (λ r. and_then r (λ (x, n). store q (wrap' x) n)) (copies a m) ∙ store_copy q (into a m)

    -- Copying what `p` points to does the same at both types.
    pub copy_at-cast :
        (p q : Ptr) (m : List Cell) → copy_at part' wrap' into' p q m ≡ copy_at part wrap into p q m
    copy_at-cast p q m =
        ap
          (λ o.
            and_then (and_then o (λ b. some (b, m)))
              (λ (b, n). and_then (into' b n) (λ (x, n). store q (wrap' x) n)))
          (at_ptr-cast m p)
        ∙ copy_target q m (at_ptr part m p)

module _ {Cell : Type 0} (zero_value : Cell) (copy copy' : Ptr → Ptr → Command Cell (Unit {0}))
    (same : (p q : Ptr) (m : List Cell) → copy' p q m ≡ copy p q m) where
  pub copy_field-same :
      (p : Option Ptr) (m : List Cell)
      → copy_field zero_value copy' p m ≡ copy_field zero_value copy p m
  copy_field-same none m = refl
  copy_field-same (some p) m =
      ap (λ r. and_then r (λ (_, n). some (some (length m), n)))
        (same p (length m) (m ++ zero_value ∷ []))
