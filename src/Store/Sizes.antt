-- ===== src/Store/Sizes.antt =====
-- How many cells a command adds.
use gardener_extension_netwo.Prelude.{
  ◌≡◌, ap, ℕ, suc, ◌+◌, ◌≤◌, Option, none, some, List, [], ◌∷◌, ◌++◌, arith, length,
  and_then-eq-some, some-injective, length-append, length-set,
}
use gardener_extension_netwo.Store.{Ptr, Command, pure, ◌>>=◌, store, at_ptr, load, copy_field}
use gardener_extension_netwo.Store.Copies.{copy_at}

module _ {Cell : Type 0} where
  -- Where the command returns, the memory has at most `k` cells more.
  abbrev pub Adds : {A : Type 0} → ℕ → Command Cell A → Type 0
  Adds {A} k c =
      (m : List Cell) (a : A) (m' : List Cell) → c m ≡ some (a, m') → length m' ≤ k + length m

  pub pure-Adds : {A : Type 0} (a : A) → Adds 0 (pure {Cell = Cell} a)
  pure-Adds a m b n h = omega (arith, ap (λ x. length x.1) (some-injective h))

  pub store-Adds : (p : Ptr) (c : Cell) → Adds 0 (store p c)
  store-Adds p c m b n h = omega (arith, ap (λ x. length x.1) (some-injective h), length-set m p c)

  pub load-Adds : {A : Type 0} (part : Cell → Option A) (p : Ptr) → Adds 0 (load part p)
  load-Adds part p m b n h =
      let (a, e, h) = and_then-eq-some (at_ptr part m p) _ h in
      omega (arith, ap (λ x. length x.1) (some-injective h))

  pub >>=-Adds :
      {A B : Type 0} (j k : ℕ) (c : Command Cell A) (f : A → Command Cell B)
      → Adds j c
      → ((a : A) → Adds k (f a))
      → Adds (j + k) (c >>= f)
  >>=-Adds j k c f x y m b o h =
      let ((a, n), e, h) = and_then-eq-some (c m) _ h in omega (arith, x m a n e, y a n b o h)

  pub copy_at-Adds :
      {A : Type 0} (k : ℕ) (part : Cell → Option A) (wrap : A → Cell) (into : A → Command Cell A)
      → ((s : A) → Adds k (into s))
      → (p q : Ptr) → Adds k (copy_at part wrap into p q)
  copy_at-Adds k part wrap into x p q m b l h =
      let ((s, n), e, h) = and_then-eq-some (load part p m) _ h in
      let ((out, o), f, h) = and_then-eq-some (into s n) _ h in
      omega (arith, load-Adds part p m s n e, x s n out o f, store-Adds q (wrap out) o b l h)

  -- One cell for the target, where there is one, and those that its copy adds.
  pub copy_field-Adds :
      (k : ℕ) (zero_value : Cell) (copy : Ptr → Ptr → Command Cell (Unit {0}))
      → ((p q : Ptr) → Adds k (copy p q))
      → (p : Option Ptr) → Adds (suc k) (copy_field zero_value copy p)
  copy_field-Adds k zero_value copy x none m b o h =
      omega (arith, ap (λ x. length x.1) (some-injective h))
  copy_field-Adds k zero_value copy x (some p) m b l h =
      let n : List Cell = m ++ zero_value ∷ [] in
      let ((u, o), e, h) = and_then-eq-some (copy p (length m) n) _ h in
      omega (
        arith,
        x p (length m) n u o e,
        ap (λ x. length x.1) (some-injective h),
        length-append m (zero_value ∷ []),
      )
