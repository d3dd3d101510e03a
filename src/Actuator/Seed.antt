-- ===== src/Actuator/Seed.antt =====
-- The calls that the actuator makes to the seed's API server, as data, and the actions that are
-- made of them.
pub mod View
pub mod Places
pub mod Script
pub mod Updates
use gardener_extension_netwo.Prelude.{◌≡◌, refl, ap, ℕ, String, Bool, Option, List}
use gardener_extension_netwo.Prelude.Result.{Result, ok, err, panic}
use gardener_extension_netwo.Gardener.{Bytes}
use gardener_extension_netwo.Json.{Members}
use gardener_extension_netwo.Api.Types.{NetworkStatus}

-- `manager.Secret`, as its builder leaves it.
pub record Secret : Type 0 where
  pub namespace : String
  pub name : String
  pub key_values : List (String × Bytes)

-- `manager.ManagedResource`
pub record ManagedResource : Type 0 where
  pub namespace : String
  pub name : String
  pub secret_refs : List String
  pub injected_labels : List (String × String)

-- `chart.Chart`: its objects by type and name.
pub record Chart : Type 0 where
  pub name : String
  pub path : String
  pub objects : List (String × String)

-- `gardencorev1beta1.LastOperation`
pub record LastOperation : Type 0 where
  pub last_update_time : ℕ
  pub operation_type : String
  pub state : String
  pub progress : ℕ
  pub description : String

-- The part of a `Network`'s status that the actuator writes.
pub record Status : Type 0 where
  pub provider_status : Option NetworkStatus
  pub last_operation : Option LastOperation

-- A function of gardener that the code calls, with its arguments. A secret and a managed resource
-- are named by namespace and name. `update_status` is `TryUpdateStatus` on the `Network` of a
-- namespace and name, and is given the time. A deadline is in seconds. A chart is applied with no image
-- vector and no versions.
pub data Call : Type 0 where
  reconcile_secret : Secret → Call
  delete_secret : String → String → Call
  reconcile_managed_resource : ManagedResource → Call
  delete_managed_resource : String → String → Call
  wait_until_deleted : ℕ → String → String → Call
  set_keep_objects : String → String → Bool → Call
  apply_chart : Chart → String → Members → Call
  delete_chart : Chart → String → Call
  update_status : String → String → (ℕ → Status → Status) → Call

-- The seed: its state, what a call does, and `client.IgnoreNotFound`.
pub record Seed : Type 1 where
  pub State : Type 0
  pub perform : Call → State → Result (Unit {0}) × State
  pub ignore_not_found : Result (Unit {0}) → Result (Unit {0})

module _ (S : Type 0) where
  abbrev pub Action : Type 0 → Type 0
  Action A = S → Result A × S

module _ {S : Type 0} where
  -- A result that needs no call.
  abbrev pub lift : {A : Type 0} → Result A → Action S A
  lift r s = (r, s)

  abbrev pub continue : {A B : Type 0} → Result A → S → (A → Action S B) → Result B × S
  continue (ok a) s f = f a s
  continue (err e) s f = (err e, s)
  continue (panic e) s f = (panic e, s)

  infixl 5 ◌>>=◌ ◌>>◌
  abbrev pub ◌>>=◌ : {A B : Type 0} → Action S A → (A → Action S B) → Action S B
  ◌>>=◌ m f s = let (r, s') = m s in continue r s' f

  abbrev pub ◌>>◌ : {B : Type 0} → Action S (Unit {0}) → Action S B → Action S B
  m >> k = m >>= λ _. k

  pub continue-eq-ok :
      {A B : Type 0} (r : Result A) (s : S) (f : A → Action S B) {u : S} {b : B}
      → continue r s f ≡ (ok b, u)
      → (a : A) × (r ≡ ok a) × (f a s ≡ (ok b, u))
  continue-eq-ok (ok a) s f h = (a, refl, h)
  continue-eq-ok (err e) s f h = cc
  continue-eq-ok (panic e) s f h = cc

  -- An action that ends well did so after each of its parts.
  pub >>=-eq-ok :
      {A B : Type 0} (m : Action S A) (f : A → Action S B) {s u : S} {b : B}
      → (m >>= f) s ≡ (ok b, u)
      → (a : A) × (t : S) × (m s ≡ (ok a, t)) × (f a t ≡ (ok b, u))
  >>=-eq-ok m f {s} h =
      let (a, e, k) = continue-eq-ok (m s).0 (m s).1 f h in
      (a, (m s).1, ap (λ r. (r, (m s).1)) e, k)
