-- ===== src/Actuator/Retries.antt =====
-- Operations that are tried again until they end well, as gardener's controllers do, on a seed that
-- fails finitely often.
pub mod Ends
use gardener_extension_netwo.Prelude.{
  ◌≡◌, refl, ap, sym, ◌∙◌, ℕ, zero, suc, ◌≤◌, ◌<◌, ◌⊎◌, inl, inr, arith,
}
use gardener_extension_netwo.Prelude.Result.{Result, ok, err, panic}
use gardener_extension_netwo.Actuator.Seed.{Call, delete_chart, Seed, Action, lift, continue, ◌>>◌}
use gardener_extension_netwo.Actuator.Seed.Script.{run}

-- Up to `n` times more, as long as it does not end well.
abbrev pub or_else :
    {S : Type 0} → Result (Unit {0}) × S → Result (Unit {0}) × S → Result (Unit {0}) × S
or_else (ok _, t) rest = (ok tt, t)
or_else (err _, t) rest = rest
or_else (panic _, t) rest = rest

abbrev pub retried : {S : Type 0} → ℕ → Action S (Unit {0}) → Action S (Unit {0})
retried zero op s = op s
retried (suc n) op s = or_else (op s) (retried n op (op s).1)

-- The state that the first `k` attempts leave.
abbrev pub after : {S : Type 0} → ℕ → Action S (Unit {0}) → S → S
after zero op s = s
after (suc k) op s = after k op (op s).1

-- The outcome of a call, where the code passes it through `client.IgnoreNotFound`.
abbrev pub outcome : (S : Seed) → Call → Result (Unit {0}) → Result (Unit {0})
outcome S (delete_chart c n) r = S.ignore_not_found r
outcome S _ r = r

-- A bound on the failures that a state has left: a call that does not end well uses one up, and one
-- that ends well adds none.
pub record Recovers (S : Seed) (faults : S.State → ℕ) : Type 0 where
  pub called :
      (c : Call) (s : S.State)
      → ((outcome S c (S.perform c s).0 ≡ ok tt) × (faults (S.perform c s).1 ≤ faults s))
        ⊎ (faults (S.perform c s).1 < faults s)

module _ {S : Type 0} (faults : S → ℕ) where
  -- An operation that ends well, or uses up a failure.
  abbrev pub Progresses : Action S (Unit {0}) → Type 0
  Progresses op =
      (s : S) → (((op s).0 ≡ ok tt) × (faults (op s).1 ≤ faults s)) ⊎ (faults (op s).1 < faults s)

  -- What comes behind a part that used up a failure.
  failed-Progresses :
      (r : Result (Unit {0})) (s t : S) (next : Action S (Unit {0}))
      → faults t < faults s
      → Progresses next
      → let u = continue r t (λ _. next) in
        ((u.0 ≡ ok tt) × (faults u.1 ≤ faults s)) ⊎ (faults u.1 < faults s)
  failed-Progresses (ok _) s t next h y = elim (y t) [
    | inl (_, le) ↦ inr (omega arith)
    | inr lt ↦ inr (omega arith)
  ]
  failed-Progresses (err e) s t next h y = inr h
  failed-Progresses (panic e) s t next h y = inr h

  pub >>-Progresses :
      (op next : Action S (Unit {0})) → Progresses op → Progresses next → Progresses (op >> next)
  >>-Progresses op next x y s = elim (x s) [
    | inl (good, le) ↦ elim (y (op s).1) [
      | inl (end, least) ↦ inl (rw good end, rw good (omega arith))
      | inr lt ↦ inr (rw good (omega arith))
    ]
    | inr lt ↦ failed-Progresses (op s).0 s (op s).1 next lt y
  ]

  -- Behind `k` attempts one ends well, and it is what up to `n` repetitions come to.
  abbrev pub EndsWell : ℕ → Action S (Unit {0}) → S → S → ℕ → Type 0
  EndsWell n op s t k = (k ≤ n) × (retried n op s ≡ (ok tt, t)) × (op (after k op s) ≡ (ok tt, t))

  again :
      (n : ℕ) (op : Action S (Unit {0})) (s : S) (r : Result (Unit {0})) (t : S)
      → op s ≡ (r, t)
      → (k : ℕ) × (v : S) × EndsWell n op t v k
      → (k : ℕ) × (v : S) × ((k ≤ suc n)
          × (or_else (r, t) (retried n op t) ≡ (ok tt, v))
          × (op (after k op s) ≡ (ok tt, v)))
  again n op s (ok _) t e _ = (0, t, (omega arith, refl, e))
  again n op s (err _) t e (k, v, (le, tried, last)) =
      (suc k, v, (omega arith, tried, ap (λ x. op (after k op x.1)) e ∙ last))
  again n op s (panic _) t e (k, v, (le, tried, last)) =
      (suc k, v, (omega arith, tried, ap (λ x. op (after k op x.1)) e ∙ last))

  -- Enough attempts end well, the last one from the state that those before it have left.
  pub retried-last :
      (n : ℕ) (op : Action S (Unit {0})) (s : S)
      → Progresses op
      → faults s ≤ n
      → (k : ℕ) × (t : S) × EndsWell n op s t k
  retried-last zero op s x h = elim (x s) [
    | inl (good, _) ↦
        (0, (op s).1, (omega arith, (λ i. (good i, (op s).1)), λ i. (good i, (op s).1)))
    | inr lt ↦ absurd (omega arith)
  ]
  retried-last (suc n) op s x h = elim (x s) [
    | inl (good, _) ↦ (
      0,
      (op s).1,
      (
        omega arith,
        ap (λ r. or_else (r, (op s).1) (retried n op (op s).1)) good,
        λ i. (good i, (op s).1),
      ),
    )
    | inr lt ↦ again n op s (op s).0 (op s).1 refl (retried-last n op (op s).1 x (omega arith))
  ]
