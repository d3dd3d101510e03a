-- ===== src/Actuator/Seed/Script.antt =====
-- Calls in sequence, up to the first that does not succeed.
use gardener_extension_netwo.Prelude.{◌≡◌, refl, sym, ap, subst, ℕ, List, [], ◌∷◌}
use gardener_extension_netwo.Prelude.Result.{Result, ok, err, panic}
use gardener_extension_netwo.Actuator.Seed.{Call, Seed, Action, lift, continue, ◌>>◌, >>=-eq-ok}
use gardener_extension_netwo.Actuator.Seed.View.{View, change, IsLawful}
use mathlib.Core.Path.{fun_ext}

module _ (S : Seed) where
  unfoldable pub run : List Call → Action S.State (Unit {0})
  run [] = lift (ok tt)
  run (c ∷ cs) = S.perform c >> run cs

  continue-ok : (r : Result (Unit {0})) (s : S.State) → continue r s (λ _. lift (ok tt)) ≡ (r, s)
  continue-ok (ok a) s = refl
  continue-ok (err e) s = refl
  continue-ok (panic e) s = refl

  -- A script of one call is the call.
  pub run-one : (c : Call) → run (c ∷ []) ≡ S.perform c
  unfolding run
  run-one c = fun_ext λ s. continue-ok (S.perform c s).0 (S.perform c s).1

  pub run-cons : (c : Call) (cs : List Call) → run (c ∷ cs) ≡ (S.perform c >> run cs)
  unfolding run
  run-cons c cs = refl

-- The view after calls that all succeed, at some times.
abbrev pub Changed : List Call → View → View → Type 0
Changed [] v w = w ≡ v
Changed (c ∷ cs) v w = (now : ℕ) × Changed cs (change c now v) w

module _ (S : Seed) {view : S.State → View} (L : IsLawful S view) where
  pub run-Changed :
      (cs : List Call) (s t : S.State) → run S cs s ≡ (ok tt, t) → Changed cs (view s) (view t)
  unfolding run
  run-Changed [] s t h = ap (λ r. view r.1) (sym h)
  run-Changed (c ∷ cs) s t h =
      let (_, u, e, k) = >>=-eq-ok (S.perform c) (λ _. run S cs) {s = s} h in
      let (now, p) = L.performed c e in
      (now, subst (λ v. Changed cs v (view t)) p (run-Changed cs _ t k))
