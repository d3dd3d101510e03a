-- ===== src/Actuator/Delete/Gone.antt =====
-- What a seed and the shoot hold after `Delete` and after `Migrate`.
use mathlib.Core.Path.{fun_ext}
use gardener_extension_netwo.Prelude.{
  ◌≡◌, refl, ap, ◌∙◌, inl, inr, String, Bool, true, false, ◌&&◌, Option, none, some, List, [], ◌∷◌,
}
use gardener_extension_netwo.Prelude.Result.{ok}
use gardener_extension_netwo.Gardener.{Network, Cluster}
use gardener_extension_netwo.Actuator.Seed.{
  Action, continue, ◌>>◌, Call, delete_secret, delete_managed_resource, wait_until_deleted,
  set_keep_objects, delete_chart, >>=-eq-ok,
}
use gardener_extension_netwo.Actuator.Seed.Script.{run, run-one, run-cons, run-Changed}
use gardener_extension_netwo.Actuator.Seed.View.{
  Managed, View, IsLawful, update, keeps, mark_deleting, mark_keep, set_chart_objects, change,
}
use gardener_extension_netwo.Actuator.Seed.Updates.{update_self, update-update, update_same}
use gardener_extension_netwo.Actuator.Environment.{Environment}
use gardener_extension_netwo.Actuator.Monitoring.{
  calico_control_plane_monitoring_chart, apply_monitoring_config,
}
use gardener_extension_netwo.Actuator.Reconcile.{calico_config_secret_name}
use gardener_extension_netwo.Actuator.Delete.{deletion_timeout, delete, migrate}

-- The view after `Delete`: monitoring, secret and managed resource are gone, and the objects in
-- the shoot are too, unless the managed resource keeps them. All else is as before.
abbrev pub deleted : Network → View → View
deleted network v = record v {
  secrets = update v.secrets network.namespace calico_config_secret_name none;
  managed_resources = update v.managed_resources network.namespace calico_config_secret_name none;
  shoot_objects = update v.shoot_objects network.namespace calico_config_secret_name (
      keeps (v.managed_resources network.namespace calico_config_secret_name)
      && v.shoot_objects network.namespace calico_config_secret_name);
  chart_objects =
      set_chart_objects calico_control_plane_monitoring_chart network.namespace false
        v.chart_objects;
}

-- The view after `Migrate`: as after `Delete`, but the objects in the shoot are all still there.
abbrev pub migrated : Network → View → View
migrated network v = record (deleted network v) { shoot_objects = v.shoot_objects }

-- The calls of `Delete` behind the first.
abbrev pub delete_calls : Network → List Call
delete_calls network =
    delete_secret network.namespace calico_config_secret_name
    ∷ delete_managed_resource network.namespace calico_config_secret_name
    ∷ wait_until_deleted deletion_timeout network.namespace calico_config_secret_name
    ∷ []

abbrev without_monitoring : Network → View → View
without_monitoring network v = record v {
  chart_objects =
      set_chart_objects calico_control_plane_monitoring_chart network.namespace false
        v.chart_objects;
}

pub keeps-mark_deleting : (m : Option Managed) → keeps (mark_deleting m) ≡ keeps m
keeps-mark_deleting none = refl
keeps-mark_deleting (some m) = refl

pub keeps-mark_keep : (m : Option Managed) → keeps (mark_keep true m) ≡ true
keeps-mark_keep none = refl
keeps-mark_keep (some m) = refl

and_idem : (a b : Bool) → (a && (a && b)) ≡ (a && b)
and_idem true b = refl
and_idem false b = refl

-- The calls together, on any view.
pub delete_calls-deleted :
    (network : Network) (v : View)
    → change (wait_until_deleted deletion_timeout network.namespace calico_config_secret_name) 0 (
        change (delete_managed_resource network.namespace calico_config_secret_name) 0 (
          change
            (delete_secret network.namespace calico_config_secret_name)
            0
            (without_monitoring network v)))
      ≡ deleted network v
delete_calls-deleted network v =
    let n : String = network.namespace in
    let k : String = calico_config_secret_name in
    let marked : Option Managed = mark_deleting (v.managed_resources n k) in
    let kept : keeps (update v.managed_resources n k marked n k) ≡ keeps (v.managed_resources n k) =
      ap keeps (update_self v.managed_resources n k marked)
      ∙ keeps-mark_deleting (v.managed_resources n k) in
    let left : Bool = keeps (v.managed_resources n k) && v.shoot_objects n k in
    let objects =
      (λ i.
        update (update v.shoot_objects n k left) n k
          (kept i && update_self v.shoot_objects n k left i))
      ∙ update-update v.shoot_objects n k left (keeps (v.managed_resources n k) && left)
      ∙ ap (update v.shoot_objects n k)
          (and_idem (keeps (v.managed_resources n k)) (v.shoot_objects n k)) in
    λ i. record (deleted network v) {
      managed_resources = update-update v.managed_resources n k marked none i;
      shoot_objects = objects i;
    }

-- Marking the managed resource first makes `Delete` keep the objects.
deleted-mark_keep :
    (network : Network) (v : View)
    → deleted network
        (change (set_keep_objects network.namespace calico_config_secret_name true) 0 v)
      ≡ migrated network v
deleted-mark_keep network v =
    let n : String = network.namespace in
    let k : String = calico_config_secret_name in
    let marked : Option Managed = mark_keep true (v.managed_resources n k) in
    let kept : keeps (update v.managed_resources n k marked n k) ≡ true =
      ap keeps (update_self v.managed_resources n k marked)
      ∙ keeps-mark_keep (v.managed_resources n k) in
    let same : update v.shoot_objects n k
          (keeps (update v.managed_resources n k marked n k) && v.shoot_objects n k)
        ≡ v.shoot_objects =
      update_same v.shoot_objects n k (ap (λ b. b && v.shoot_objects n k) kept) in
    λ i. record (migrated network v) {
      managed_resources = update-update v.managed_resources n k marked none i;
      shoot_objects = same i;
    }

module _ (E : Environment) {view : E.seed.State → View} (L : IsLawful E.seed view) where
  monitoring-removed :
      (network : Network) {s t : E.seed.State}
      → apply_monitoring_config E.seed network true s ≡ (ok tt, t)
      → view t ≡ without_monitoring network (view s)
  unfolding apply_monitoring_config
  monitoring-removed network {s} {t} h =
      let r =
        E.seed.perform (delete_chart calico_control_plane_monitoring_chart network.namespace) s in
      let moved : r.1 ≡ t = ap (λ x. x.1) h in
      elim (L.ignore_not_found r.0 (ap (λ x. x.0) h)) [
        | inl good ↦ (L.performed _ {s = s} {t = t} (λ i. (good i, moved i))).1
        | inr (e, bad, missing) ↦
            (L.absent calico_control_plane_monitoring_chart network.namespace {s = s} {t = t} refl
              (λ i. (bad i, moved i)) missing).1
      ]

  -- A deletion that ends well leaves the view as `deleted` says.
  pub delete-deleted :
      (network : Network) (cluster : Cluster) {s t : E.seed.State}
      → delete E network cluster s ≡ (ok tt, t)
      → view t ≡ deleted network (view s)
  unfolding delete
  delete-deleted network cluster {s} {t} h =
      let (_, u, e, k) =
        >>=-eq-ok (apply_monitoring_config E.seed network true)
          (λ _. run E.seed (delete_calls network)) {s = s}
          (rw (run-cons E.seed, run-cons E.seed, run-one E.seed) h) in
      let (_, (_, (_, p))) = run-Changed E.seed L (delete_calls network) u t k in
      p ∙ rw (monitoring-removed network e) (delete_calls-deleted network (view s))

  -- A migration that ends well leaves the objects of the managed resource in the shoot, and removes
  -- the rest like `Delete`.
  pub migrate-migrated :
      (network : Network) (cluster : Cluster) {s t : E.seed.State}
      → migrate E network cluster s ≡ (ok tt, t)
      → view t ≡ migrated network (view s)
  unfolding migrate
  migrate-migrated network cluster {s} h =
      let mark =
        E.seed.perform (set_keep_objects network.namespace calico_config_secret_name true) in
      let (_, u, e, k) = >>=-eq-ok mark (λ _. delete E network cluster) {s = s} h in
      let (_, p) = L.performed _ e in
      delete-deleted network cluster k ∙ ap (deleted network) p ∙ deleted-mark_keep network (view s)

module _ (E : Environment) (network : Network) (cluster : Cluster) where
  -- The deletion of the monitoring objects, where "not found" is no error.
  abbrev pub remove_monitoring : Action E.seed.State (Unit {0})
  remove_monitoring s =
      let (r, t) =
        E.seed.perform (delete_chart calico_control_plane_monitoring_chart network.namespace) s in
      (E.seed.ignore_not_found r, t)

  pub delete-run :
      (s : E.seed.State)
      → delete E network cluster s ≡ (remove_monitoring >> run E.seed (delete_calls network)) s
  unfolding delete apply_monitoring_config
  delete-run s = rw (run-cons E.seed, run-cons E.seed, run-one E.seed)

  -- `Migrate` marks the objects as kept, removes the monitoring objects, and then deletes the secret and
  -- the managed resource and waits, in this order. The first of these steps that does not succeed ends
  -- it, with its error, and no later one is made.
  pub migrate-run :
      (s : E.seed.State)
      → migrate E network cluster s
        ≡ (E.seed.perform (set_keep_objects network.namespace calico_config_secret_name true)
              >> (remove_monitoring >> run E.seed (delete_calls network)))
            s
  unfolding migrate
  migrate-run s =
      let (r, t) =
        E.seed.perform (set_keep_objects network.namespace calico_config_secret_name true) s in
      ap (continue r t) (fun_ext λ _. fun_ext delete-run)
