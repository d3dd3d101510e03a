-- ===== src/Charts/Values/Laws.antt =====
-- What the values of the chart hold, and when there are none.
use gardener_extension_netwo.Prelude.{
  ◌≢◌, subst, ◌≡◌, refl, String, ◌<>◌, Bool, true, false, Option, none, some, List, [], ◌∷◌, arith,
  if◌then◌else◌, Every,
}
use gardener_extension_netwo.Prelude.Result.{
  Error, Result, ok, ok-injective, err, panic, errorf, >>=-eq-ok, >>=-ne-err, ◌>>=◌, with_prefix,
}
use gardener_extension_netwo.Calico.{
  cni_image_name, node_image_name, typha_image_name, kube_controllers_image_name,
  pod_to_daemon_flex_volume_driver_image_name, calico_cluster_proportional_autoscaler_image_name,
  cluster_proportional_vertical_autoscaler_image_name,
}
use gardener_extension_netwo.Gardener.{Network}
use gardener_extension_netwo.Json.{boolean, text, object, Members, end, member, at_path, lookup}
use gardener_extension_netwo.Api.Types.{NetworkConfig}
use gardener_extension_netwo.Images.{ImageVectors, find_image}
use gardener_extension_netwo.Charts.Config.{CalicoConfig}
use gardener_extension_netwo.Charts.Generate.{generate_chart_values}
use gardener_extension_netwo.Charts.Marshal.{to_map}
use gardener_extension_netwo.Charts.Marshal.Paths.{HoldsConfig, to_map-HoldsConfig}
use gardener_extension_netwo.Charts.Values.{
  label_worker_pool_system_components, image_values, chart_values, compute_calico_chart_values,
}

abbrev pub image_names : List String
image_names =
    cni_image_name ∷ typha_image_name ∷ kube_controllers_image_name ∷ node_image_name
    ∷ pod_to_daemon_flex_volume_driver_image_name
    ∷ calico_cluster_proportional_autoscaler_image_name
    ∷ cluster_proportional_vertical_autoscaler_image_name ∷ []

module _ (I : ImageVectors) (vector : I.ImageVector) (version : String) where
  -- The image of this name is found, and the map of images has it under its name.
  abbrev pub Shows : Members → String → Type 0
  Shows images name =
      (find_image I vector name version >>= λ image. ok (some (text image)))
      ≡ ok (lookup name images)

  pub image_values-Shows :
      {images : Members}
      → image_values I vector version ≡ ok images
      → Every (Shows images) image_names
  unfolding image_values
  image_values-Shows h = ground arith

  image_values-ne-err : (e : Error) → image_values I vector version ≢ err e
  unfolding image_values find_image
  image_values-ne-err e h = ground arith

  -- Nothing but a panic of a lookup stops the map of images.
  abbrev pub IsFound : String → Type 0
  IsFound name = (image : String) × (find_image I vector name version ≡ ok image)

  image_values-ok :
      Every IsFound image_names → (images : Members) × (image_values I vector version ≡ ok images)
  unfolding image_values
  image_values-ok ((a, p), ((b, q), ((c, r), ((d, s), ((e, t), ((f, u), ((g, v), _))))))) = (
    member cni_image_name (text a) (
        member typha_image_name (text b) (
          member kube_controllers_image_name (text c) (
            member node_image_name (text d) (
              member pod_to_daemon_flex_volume_driver_image_name (text e) (
                member calico_cluster_proportional_autoscaler_image_name (text f)
                  (member cluster_proportional_vertical_autoscaler_image_name (text g) end)))))),
    rw (p, q, r, s, t, u, v),
  )

-- The values that are to be given to the templates for a chart configuration `c`.
pub record IsChart (I : ImageVectors) (vector : I.ImageVector) (network : Network)
    (activated : Bool) (version : String) (wants_vpa : Bool) (c : CalicoConfig) (m : Members)
    : Type 0 where
  pub vpa : at_path ("vpa" ∷ "enabled" ∷ []) (object m) ≡ some (boolean wants_vpa)
  pub pod_cidr : at_path ("global" ∷ "podCIDR" ∷ []) (object m) ≡ some (text network.pod_cidr)
  pub node_selector : at_path ("nodeSelector" ∷ []) (object m) ≡ (
      if activated
      then some (object (member label_worker_pool_system_components (text "true") end))
      else none)
  pub config : (k : Members) × (lookup "config" m ≡ some (object k)) × HoldsConfig c k
  pub images :
      (k : Members) × (lookup "images" m ≡ some (object k))
      × Every (Shows I vector version k) image_names

module _ (I : ImageVectors) (vector : I.ImageVector) (version : String) where
  chart_values-IsChart :
      (network : Network) (on wants_vpa : Bool) (c : CalicoConfig) (images k : Members)
      → HoldsConfig c k
      → Every (Shows I vector version images) image_names
      → IsChart I vector network on version wants_vpa c (chart_values network on wants_vpa images k)
  chart_values-IsChart network true wants_vpa c images k h s = record {
    vpa = refl;
    pod_cidr = refl;
    node_selector = refl;
    config = (k, refl, h);
    images = (images, refl, s);
  }
  chart_values-IsChart network false wants_vpa c images k h s = record {
    vpa = refl;
    pod_cidr = refl;
    node_selector = refl;
    config = (k, refl, h);
    images = (images, refl, s);
  }

-- What is left of the computation behind the typed configuration.
module _ (I : ImageVectors) (vector : I.ImageVector) (network : Network) (activated : Bool)
    (version : String) (wants_vpa : Bool) where
  abbrev finish : CalicoConfig → Result Members
  finish c = do
    k ← with_prefix "could not convert calico config" (to_map c)
    images ← image_values I vector version
    ok (chart_values network activated wants_vpa images k)

  finish-IsChart :
      (c : CalicoConfig) {m : Members}
      → finish c ≡ ok m
      → IsChart I vector network activated version wants_vpa c m
  finish-IsChart c h =
      let (k, mapped, holds) = to_map-HoldsConfig c in
      let (images, found, e) = >>=-eq-ok (image_values I vector version) _ (rw mapped at h) in
      subst (λ x. IsChart I vector network activated version wants_vpa c x) (ok-injective e)
        (chart_values-IsChart I vector version network activated wants_vpa c images k holds
          (image_values-Shows I vector version found))

  finish-ne-err : (c : CalicoConfig) {e : Error} → finish c ≢ err e
  finish-ne-err c {e} h =
      let (k, mapped, _) = to_map-HoldsConfig c in
      >>=-ne-err (image_values I vector version) _ (image_values-ne-err I vector version)
        (rw mapped at h)

  finish-ok :
      (c : CalicoConfig)
      → Every (IsFound I vector version) image_names
      → (m : Members) × (finish c ≡ ok m)
  finish-ok c found =
      let (k, mapped, _) = to_map-HoldsConfig c in
      let (images, e) = image_values-ok I vector version found in
      (chart_values network activated wants_vpa images k, rw (mapped, e))

  abbrev prefix : String
  prefix = "error when generating calico config"

  generated-IsChart :
      (r : Result CalicoConfig) {m : Members}
      → (with_prefix prefix r >>= finish) ≡ ok m
      → (c : CalicoConfig) × (r ≡ ok c) × IsChart I vector network activated version wants_vpa c m
  generated-IsChart (ok c) h = (c, refl, finish-IsChart c h)
  generated-IsChart (err e) h = cc
  generated-IsChart (panic e) h = cc

  generated-err :
      (r : Result CalicoConfig) {e : Error}
      → (with_prefix prefix r >>= finish) ≡ err e
      → (cause : Error) × (r ≡ err cause) × (e ≡ errorf (prefix <> ": " <> cause.message))
  generated-err (ok c) h = absurd (finish-ne-err c h)
  generated-err (err cause) h = (cause, refl, ground arith)
  generated-err (panic e) h = cc

  module _ (config : Option NetworkConfig) where
    -- Whatever map is returned holds the values for the chart configuration that
    -- `generateChartValues` gives.
    pub compute_calico_chart_values-IsChart :
        {m : Members}
        → compute_calico_chart_values I vector network config activated version wants_vpa ≡ ok m
        → (c : CalicoConfig) × (generate_chart_values config ≡ ok c)
          × IsChart I vector network activated version wants_vpa c m
    unfolding compute_calico_chart_values
    compute_calico_chart_values-IsChart h = generated-IsChart (generate_chart_values config) h

    -- The only errors are those of `generateChartValues`, behind a prefix: a missing image panics.
    pub compute_calico_chart_values-err :
        {e : Error}
        → compute_calico_chart_values I vector network config activated version wants_vpa ≡ err e
        → (cause : Error) × (generate_chart_values config ≡ err cause)
          × (e ≡ errorf ("error when generating calico config" <> ": " <> cause.message))
    unfolding compute_calico_chart_values
    compute_calico_chart_values-err h = generated-err (generate_chart_values config) h

    -- If the configuration is accepted and all seven images are found, there is a map.
    pub compute_calico_chart_values-ok :
        {c : CalicoConfig}
        → generate_chart_values config ≡ ok c
        → Every (IsFound I vector version) image_names
        → (m : Members) × (compute_calico_chart_values I vector network config activated version
              wants_vpa
            ≡ ok m)
    unfolding compute_calico_chart_values
    compute_calico_chart_values-ok {c} e found = rw e (finish-ok c found)
