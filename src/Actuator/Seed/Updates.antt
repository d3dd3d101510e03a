-- ===== src/Actuator/Seed/Updates.antt =====
-- Writing and reading values by namespace and name.
use mathlib.Core.Path.{fun_ext}
use gardener_extension_netwo.Prelude.{
  ◌≡◌, inl, inr, String, Bool, true, ◌&&◌, arith, ◌==◌, eq_iff, eq_self, Bool-cases,
}
use gardener_extension_netwo.Actuator.Seed.{Chart}
use gardener_extension_netwo.Actuator.Seed.View.{Named, update, set_chart_objects}

and-eq-true : (p q : Bool) → (p && q) ≡ true → (p ≡ true) × (q ≡ true)
and-eq-true p q h = ground arith

module _ {A : Type 0} (f : Named A) (n k : String) where
  pub update_self : (a : A) → update f n k a n k ≡ a
  update_self a = rw (eq_self n, eq_self k)

  pub update-update : (a b : A) → update (update f n k a) n k b ≡ update f n k b
  update-update a b = fun_ext λ i. fun_ext λ j. ground arith

  pub update_same : {a : A} → a ≡ f n k → update f n k a ≡ f
  update_same e = fun_ext λ i. fun_ext λ j. elim (Bool-cases (i == n && j == k)) [
    | inl t ↦
        let (p, q) = and-eq-true (i == n) (j == k) t in
        rw t (rw ((eq_iff i n).0 p, (eq_iff j k).0 q) e)
    | inr t ↦ rw t
  ]

-- The last write of a chart's objects is the one that is seen.
pub set_chart_objects-set_chart_objects :
    (c : Chart) (n : String) (a b : Bool) (f : String → Named Bool)
    → set_chart_objects c n a (set_chart_objects c n b f) ≡ set_chart_objects c n a f
set_chart_objects-set_chart_objects c n a b f =
    fun_ext λ m. fun_ext λ type. fun_ext λ k. ground arith
