-- ===== src/Actuator/Seed/Places.antt =====
-- The namespace that a call is made in: what else is not touched, and what the call depends on.
use gardener_extension_netwo.Prelude.{
  ◌≡◌, refl, sym, ◌∙◌, ap, arith, ℕ, String, Bool, true, false, some, ◌==◌, ◌&&◌, not,
  if◌then◌else◌,
}
use gardener_extension_netwo.Actuator.Seed.{
  Chart, Call, reconcile_secret, delete_secret, reconcile_managed_resource, delete_managed_resource,
  wait_until_deleted, set_keep_objects, apply_chart, delete_chart, update_status,
}
use gardener_extension_netwo.Actuator.Seed.View.{
  Named, View, update, is_deleting, mark_deleting, mark_keep, keeps, has_object, set_chart_objects,
  change,
}

-- Two views with the same in namespace `n`.
pub record Same (n : String) (v w : View) : Type 0 where
  pub secrets : (k : String) → w.secrets n k ≡ v.secrets n k
  pub managed_resources : (k : String) → w.managed_resources n k ≡ v.managed_resources n k
  pub shoot_objects : (k : String) → w.shoot_objects n k ≡ v.shoot_objects n k
  pub chart_objects : (type k : String) → w.chart_objects n type k ≡ v.chart_objects n type k
  pub statuses : (k : String) → w.statuses n k ≡ v.statuses n k

pub Same-trans : (n : String) {u v w : View} → Same n u v → Same n v w → Same n u w
Same-trans n x y = record {
  secrets = λ k. y.secrets k ∙ x.secrets k;
  managed_resources = λ k. y.managed_resources k ∙ x.managed_resources k;
  shoot_objects = λ k. y.shoot_objects k ∙ x.shoot_objects k;
  chart_objects = λ type k. y.chart_objects type k ∙ x.chart_objects type k;
  statuses = λ k. y.statuses k ∙ x.statuses k;
}

pub Same-sym : (n : String) {v w : View} → Same n v w → Same n w v
Same-sym n x = record {
  secrets = λ k. sym (x.secrets k);
  managed_resources = λ k. sym (x.managed_resources k);
  shoot_objects = λ k. sym (x.shoot_objects k);
  chart_objects = λ type k. sym (x.chart_objects type k);
  statuses = λ k. sym (x.statuses k);
}

pub Same-refl : (n : String) (v : View) → Same n v v
Same-refl n v = record {
  secrets = λ k. refl;
  managed_resources = λ k. refl;
  shoot_objects = λ k. refl;
  chart_objects = λ type k. refl;
  statuses = λ k. refl;
}

abbrev pub place : Call → String
place (reconcile_secret s) = s.namespace
place (delete_secret n k) = n
place (reconcile_managed_resource m) = m.namespace
place (delete_managed_resource n k) = n
place (wait_until_deleted deadline n k) = n
place (set_keep_objects n k keep) = n
place (apply_chart c n values) = n
place (delete_chart c n) = n
place (update_status n k f) = n

-- A call in namespace `n`, and one in another.
abbrev pub IsHere : String → Call → Type 0
IsHere n c = place c ≡ n

abbrev pub IsAway : String → Call → Type 0
IsAway n c = (n == place c) ≡ false

-- A call in another namespace changes nothing in this one.
pub change-away :
    (n : String) (c : Call) (now : ℕ) (v : View)
    → (n == place c) ≡ false
    → Same n v (change c now v)
change-away n c now v other = ground arith

update-local :
    {A : Type 0} (f g : Named A) (n k : String) (a b : A)
    → ((j : String) → g n j ≡ f n j)
    → b ≡ a
    → (j : String) → update g n k b n j ≡ update f n k a n j
update-local f g n k a b same e j = λ i. if n == n && j == k then e i else same j i

set_chart_objects-local :
    (c : Chart) (n : String) (on : Bool) (f g : String → Named Bool)
    → ((type k : String) → g n type k ≡ f n type k)
    → (type k : String) → set_chart_objects c n on g n type k ≡ set_chart_objects c n on f n type k
set_chart_objects-local c n on f g same type k =
    λ i. if n == n && has_object c.objects type k then on else same type k i

-- What a call makes of its namespace depends on that namespace alone.
pub change-local :
    (c : Call) (now : ℕ) (v w : View)
    → Same (place c) v w
    → Same (place c) (change c now v) (change c now w)
change-local (reconcile_secret s) now v w same = record {
  secrets = λ k. update-local v.secrets w.secrets s.namespace s.name _ _ same.secrets refl k;
  managed_resources = λ k. same.managed_resources k;
  shoot_objects = λ k. same.shoot_objects k;
  chart_objects = λ type k. same.chart_objects type k;
  statuses = λ k. same.statuses k;
}
change-local (delete_secret n j) now v w same = record {
  secrets = λ k. update-local v.secrets w.secrets n j _ _ same.secrets refl k;
  managed_resources = λ k. same.managed_resources k;
  shoot_objects = λ k. same.shoot_objects k;
  chart_objects = λ type k. same.chart_objects type k;
  statuses = λ k. same.statuses k;
}
change-local (reconcile_managed_resource m) now v w same = record {
  secrets = λ k. same.secrets k;
  managed_resources = λ k.
      update-local v.managed_resources w.managed_resources m.namespace m.name _ _
        same.managed_resources
        (ap
          (λ x. some (record {
            secret_refs = m.secret_refs;
            injected_labels = m.injected_labels;
            keep_objects = false;
            deleting = is_deleting x;
          }))
          (same.managed_resources m.name))
        k;
  shoot_objects = λ k.
      update-local v.shoot_objects w.shoot_objects m.namespace m.name _ _ same.shoot_objects
        (ap (λ x. not (is_deleting x)) (same.managed_resources m.name)) k;
  chart_objects = λ type k. same.chart_objects type k;
  statuses = λ k. same.statuses k;
}
change-local (delete_managed_resource n j) now v w same = record {
  secrets = λ k. same.secrets k;
  managed_resources = λ k.
      update-local v.managed_resources w.managed_resources n j _ _ same.managed_resources
        (ap mark_deleting (same.managed_resources j)) k;
  shoot_objects = λ k.
      update-local v.shoot_objects w.shoot_objects n j _ _ same.shoot_objects
        (λ i. keeps (same.managed_resources j i) && same.shoot_objects j i) k;
  chart_objects = λ type k. same.chart_objects type k;
  statuses = λ k. same.statuses k;
}
change-local (wait_until_deleted deadline n j) now v w same = record {
  secrets = λ k. same.secrets k;
  managed_resources = λ k.
      update-local v.managed_resources w.managed_resources n j _ _ same.managed_resources refl k;
  shoot_objects = λ k.
      update-local v.shoot_objects w.shoot_objects n j _ _ same.shoot_objects
        (λ i. keeps (same.managed_resources j i) && same.shoot_objects j i) k;
  chart_objects = λ type k. same.chart_objects type k;
  statuses = λ k. same.statuses k;
}
change-local (set_keep_objects n j keep) now v w same = record {
  secrets = λ k. same.secrets k;
  managed_resources = λ k.
      update-local v.managed_resources w.managed_resources n j _ _ same.managed_resources
        (ap (mark_keep keep) (same.managed_resources j)) k;
  shoot_objects = λ k. same.shoot_objects k;
  chart_objects = λ type k. same.chart_objects type k;
  statuses = λ k. same.statuses k;
}
change-local (apply_chart c n values) now v w same = record {
  secrets = λ k. same.secrets k;
  managed_resources = λ k. same.managed_resources k;
  shoot_objects = λ k. same.shoot_objects k;
  chart_objects = λ type k.
      set_chart_objects-local c n true v.chart_objects w.chart_objects same.chart_objects type k;
  statuses = λ k. same.statuses k;
}
change-local (delete_chart c n) now v w same = record {
  secrets = λ k. same.secrets k;
  managed_resources = λ k. same.managed_resources k;
  shoot_objects = λ k. same.shoot_objects k;
  chart_objects = λ type k.
      set_chart_objects-local c n false v.chart_objects w.chart_objects same.chart_objects type k;
  statuses = λ k. same.statuses k;
}
change-local (update_status n j f) now v w same = record {
  secrets = λ k. same.secrets k;
  managed_resources = λ k. same.managed_resources k;
  shoot_objects = λ k. same.shoot_objects k;
  chart_objects = λ type k. same.chart_objects type k;
  statuses = λ k.
      update-local v.statuses w.statuses n j _ _ same.statuses (ap (f now) (same.statuses j)) k;
}
