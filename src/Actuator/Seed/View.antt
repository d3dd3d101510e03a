-- ===== src/Actuator/Seed/View.antt =====
-- What can be seen of a seed, and how the calls that succeed change it.
use gardener_extension_netwo.Prelude.{
  ◌≡◌, ◌⊎◌, ℕ, String, Bool, true, false, ◌&&◌, Option, none, some, List, [], ◌∷◌, ◌==◌,
  if◌then◌else◌, not,
}
use gardener_extension_netwo.Prelude.Result.{Error, Result, ok, err}
use gardener_extension_netwo.Gardener.{Bytes}
use gardener_extension_netwo.Actuator.Seed.{
  Chart, Status, Call, reconcile_secret, delete_secret, reconcile_managed_resource,
  delete_managed_resource, wait_until_deleted, set_keep_objects, apply_chart, delete_chart,
  update_status, Seed,
}

-- A value for each namespace and name.
abbrev pub Named : Type 0 → Type 0
Named A = String → String → A

abbrev pub update : {A : Type 0} → Named A → String → String → A → Named A
update f namespace name a n k = if n == namespace && k == name then a else f n k

-- A managed resource that exists. `deleting` is set from the call that deletes it until the
-- resource manager is done with it.
pub record Managed : Type 0 where
  pub secret_refs : List String
  pub injected_labels : List (String × String)
  pub keep_objects : Bool
  pub deleting : Bool

-- `shoot_objects` says whether the objects of a managed resource are to be in the shoot: the resource
-- manager, which acts on its own, applies or deletes them until they are. `chart_objects` says whether
-- an object of this type and name is in a namespace of the seed.
pub record View : Type 0 where
  pub secrets : Named (Option (List (String × Bytes)))
  pub managed_resources : Named (Option Managed)
  pub shoot_objects : Named Bool
  pub chart_objects : String → Named Bool
  pub statuses : Named Status

abbrev pub is_deleting : Option Managed → Bool
is_deleting none = false
is_deleting (some m) = m.deleting

abbrev pub mark_deleting : Option Managed → Option Managed
mark_deleting none = none
mark_deleting (some m) = some (record m { deleting = true })

abbrev pub mark_keep : Bool → Option Managed → Option Managed
mark_keep keep none = none
mark_keep keep (some m) = some (record m { keep_objects = keep })

-- Whether the objects in the shoot stay when the managed resource goes.
abbrev pub keeps : Option Managed → Bool
keeps none = true
keeps (some m) = m.keep_objects

abbrev pub has_object : List (String × String) → String → String → Bool
has_object [] type name = false
has_object ((t, k) ∷ rest) type name =
    if t == type && k == name then true else has_object rest type name

abbrev pub set_chart_objects : Chart → String → Bool → (String → Named Bool) → String → Named Bool
set_chart_objects c namespace on f n type name =
    if n == namespace && has_object c.objects type name then on else f n type name

-- The change that a successful call makes. A managed resource is written with a new spec, which
-- keeps no objects, and the resource manager then applies them; one that is being deleted stays so,
-- and its objects are not kept. From the deletion on the resource manager removes the objects, unless
-- they are kept, and the managed resource is gone when the wait for its deletion ends.
abbrev pub change : Call → ℕ → View → View
change (reconcile_secret s) now v = record v {
  secrets = update v.secrets s.namespace s.name (some s.key_values);
}
change (delete_secret n k) now v = record v { secrets = update v.secrets n k none }
change (reconcile_managed_resource m) now v = record v {
  managed_resources = update v.managed_resources m.namespace m.name (
      some (record {
        secret_refs = m.secret_refs;
        injected_labels = m.injected_labels;
        keep_objects = false;
        deleting = is_deleting (v.managed_resources m.namespace m.name);
      }));
  shoot_objects =
      update v.shoot_objects m.namespace m.name
        (not (is_deleting (v.managed_resources m.namespace m.name)));
}
change (delete_managed_resource n k) now v = record v {
  managed_resources = update v.managed_resources n k (mark_deleting (v.managed_resources n k));
  shoot_objects =
      update v.shoot_objects n k (keeps (v.managed_resources n k) && v.shoot_objects n k);
}
change (wait_until_deleted deadline n k) now v = record v {
  managed_resources = update v.managed_resources n k none;
  shoot_objects =
      update v.shoot_objects n k (keeps (v.managed_resources n k) && v.shoot_objects n k);
}
change (set_keep_objects n k keep) now v = record v {
  managed_resources = update v.managed_resources n k (mark_keep keep (v.managed_resources n k));
}
change (apply_chart c n values) now v = record v {
  chart_objects = set_chart_objects c n true v.chart_objects;
}
change (delete_chart c n) now v = record v {
  chart_objects = set_chart_objects c n false v.chart_objects;
}
change (update_status n k f) now v = record v {
  statuses = update v.statuses n k (f now (v.statuses n k));
}

-- What the actuator relies on. Nothing is assumed of what a call leaves that fails, but that a chart
-- of one object is gone if the object is not found.
pub record IsLawful (S : Seed) (view : S.State → View) : Type 0 where
  pub performed :
      (c : Call) {s t : S.State}
      → S.perform c s ≡ (ok tt, t)
      → (now : ℕ) × (view t ≡ change c now (view s))
  pub absent :
      (c : Chart) (n : String) {s t : S.State} {e : Error} {o : String × String}
      → c.objects ≡ o ∷ []
      → S.perform (delete_chart c n) s ≡ (err e, t)
      → e.not_found ≡ true
      → (now : ℕ) × (view t ≡ change (delete_chart c n) now (view s))
  pub ignore_not_found :
      (r : Result (Unit {0}))
      → S.ignore_not_found r ≡ ok tt
      → (r ≡ ok tt) ⊎ ((e : Error) × (r ≡ err e) × (e.not_found ≡ true))
