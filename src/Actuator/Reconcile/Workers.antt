-- ===== src/Actuator/Reconcile/Workers.antt =====
-- `activateSystemComponentsNodeSelector`: when the node selector is set.
use gardener_extension_netwo.Prelude.{
  ◌≡◌, refl, ap, ◌∙◌, ◌↔◌, inl, inr, ℕ, zero, suc, Bool, true, some, List, [], ◌∷◌, get_elem?,
  Bool-cases, some-injective,
}
use gardener_extension_netwo.Gardener.{Worker, Shoot}
use gardener_extension_netwo.Actuator.Reconcile.{
  workers_loop, activate_system_components_node_selector,
}

-- A worker pool in the list that allows system components.
abbrev pub Allowing : (Worker → Bool) → List Worker → Type 0
Allowing allowed workers =
    (i : ℕ) × (worker : Worker) × (get_elem? workers i ≡ some worker) × (allowed worker ≡ true)

module _ (allowed : Worker → Bool) where
  workers_loop-Allowing :
      (workers : List Worker) → workers_loop allowed workers ≡ true → Allowing allowed workers
  unfolding workers_loop
  workers_loop-Allowing [] h = cc
  workers_loop-Allowing (worker ∷ rest) h = elim (Bool-cases (allowed worker)) [
    | inl e ↦ (0, worker, refl, e)
    | inr e ↦
        let (i, found, at, fine) = workers_loop-Allowing rest (rw e at h) in
        (suc i, found, at, fine)
  ]

  Allowing-workers_loop :
      (workers : List Worker) (i : ℕ) (found : Worker)
      → get_elem? workers i ≡ some found
      → allowed found ≡ true
      → workers_loop allowed workers ≡ true
  unfolding workers_loop
  Allowing-workers_loop [] i found at fine = cc
  Allowing-workers_loop (worker ∷ rest) zero found at fine =
      rw (ap allowed (some-injective at) ∙ fine)
  Allowing-workers_loop (worker ∷ rest) (suc i) found at fine = elim (Bool-cases (allowed worker)) [
    | inl e ↦ rw e
    | inr e ↦ rw e (Allowing-workers_loop rest i found at fine)
  ]

  -- The selector is activated if and only if some worker pool of the shoot allows system components.
  pub activate-Allowing :
      (shoot : Shoot)
      → (activate_system_components_node_selector allowed shoot ≡ true)
        ↔ Allowing allowed shoot.workers
  unfolding activate_system_components_node_selector
  activate-Allowing shoot = (
    workers_loop-Allowing shoot.workers,
    λ (i, found, at, fine). Allowing-workers_loop shoot.workers i found at fine,
  )
