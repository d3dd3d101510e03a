-- ===== src/Charts/Values/Listed.antt =====
-- The whole map of chart values, as the templates of charts/internal/calico see it.
use mathlib.Core.Quot
use gardener_extension_netwo.Prelude.{
  ◌≡◌, refl, sym, String, Bool, true, false, Option, if◌then◌else◌, Every,
}
use gardener_extension_netwo.Prelude.Result.{ok}
use gardener_extension_netwo.Json.{boolean, text, object, Members, end, member}
use gardener_extension_netwo.Json.Maps.{Agree, same, like, ◌◂◌, Covers-Agree, go_map}
use gardener_extension_netwo.Charts.Config.{CalicoConfig}
use gardener_extension_netwo.Gardener.{Network}
use gardener_extension_netwo.Calico.{
  cni_image_name, node_image_name, typha_image_name, kube_controllers_image_name,
  pod_to_daemon_flex_volume_driver_image_name, calico_cluster_proportional_autoscaler_image_name,
  cluster_proportional_vertical_autoscaler_image_name,
}
use gardener_extension_netwo.Api.Types.{NetworkConfig}
use gardener_extension_netwo.Images.{ImageVectors}
use gardener_extension_netwo.Charts.Marshal.{config_members}
use gardener_extension_netwo.Charts.Marshal.Paths.{to_map-config_members}
use gardener_extension_netwo.Charts.Marshal.Listed.{listed_config, config-listed}
use gardener_extension_netwo.Charts.Generate.{generate_chart_values}
use gardener_extension_netwo.Charts.Values.{
  label_worker_pool_system_components, image_values, chart_values, compute_calico_chart_values,
}
use gardener_extension_netwo.Charts.Values.Laws.{IsFound, image_names}

-- The chart values for a configuration and the images found, in that order too.
module _ (I : ImageVectors) (vector : I.ImageVector) (version : String) where
  abbrev pub listed_images : Every (IsFound I vector version) image_names → Members
  listed_images
        (
          (cni, _),
          ((typha, _), ((controllers, _), ((node, _), ((flex, _), ((cpa, _), ((cpva, _), _)))))),
        ) =
      member cni_image_name (text cni) (
        member calico_cluster_proportional_autoscaler_image_name (text cpa) (
          member cluster_proportional_vertical_autoscaler_image_name (text cpva) (
            member kube_controllers_image_name (text controllers) (
              member node_image_name (text node) (
                member pod_to_daemon_flex_volume_driver_image_name (text flex)
                  (member typha_image_name (text typha) end))))))

  abbrev pub listed_values :
      Network → Bool → Bool → Every (IsFound I vector version) image_names → CalicoConfig → Members
  listed_values network activated wants_vpa found c =
      let vpa : Members = member "vpa" (object (member "enabled" (boolean wants_vpa) end)) end in
      member "config" (object (listed_config c)) (
        member "global" (object (member "podCIDR" (text network.pod_cidr) end)) (
          member "images" (object (listed_images found)) (
            if activated
            then member "nodeSelector"
                (object (member label_worker_pool_system_components (text "true") end)) vpa
            else vpa)))

  -- The images in the order of the source.
  images-listed :
      (found : Every (IsFound I vector version) image_names)
      → (images : Members) × (image_values I vector version ≡ ok images)
        × Agree images (listed_images found)
  unfolding image_values
  images-listed ((a, p), ((b, q), ((c, r), ((d, s), ((e, t), ((f, u), ((g, v), _))))))) = (
    member cni_image_name (text a) (
        member typha_image_name (text b) (
          member kube_controllers_image_name (text c) (
            member node_image_name (text d) (
              member pod_to_daemon_flex_volume_driver_image_name (text e) (
                member calico_cluster_proportional_autoscaler_image_name (text f)
                  (member cluster_proportional_vertical_autoscaler_image_name (text g) end)))))),
    rw (p, q, r, s, t, u, v),
    Covers-Agree _ _
        (same refl ◂ same refl ◂ same refl ◂ same refl ◂ same refl ◂ same refl ◂ same refl ◂ tt)
        (same refl ◂ same refl ◂ same refl ◂ same refl ◂ same refl ◂ same refl ◂ same refl ◂ tt),
  )

  chart_values-listed :
      (network : Network) (on wants_vpa : Bool)
      (found : Every (IsFound I vector version) image_names) (c : CalicoConfig) {images : Members}
      → Agree images (listed_images found)
      → Agree
          (chart_values network on wants_vpa images (config_members c))
          (listed_values network on wants_vpa found c)
  chart_values-listed network true wants_vpa found c h =
      Covers-Agree _ _
        (same refl ◂ like refl h ◂ same refl ◂ like refl (config-listed c) ◂ same refl ◂ tt)
        (like refl (λ path. sym (config-listed c path))
          ◂ same refl
          ◂ like refl (λ path. sym (h path))
          ◂ same refl
          ◂ same refl
          ◂ tt)
  chart_values-listed network false wants_vpa found c h =
      Covers-Agree _ _ (same refl ◂ like refl h ◂ same refl ◂ like refl (config-listed c) ◂ tt) (
        like refl (λ path. sym (config-listed c path))
        ◂ same refl
        ◂ like refl (λ path. sym (h path))
        ◂ same refl
        ◂ tt)

  -- With a configuration that is accepted and all seven images, the computation ends well, and its map has
  -- the listed values at the listed keys and no other.
  pub compute_calico_chart_values-listed :
      (network : Network) (config : Option NetworkConfig) (on wants_vpa : Bool) {c : CalicoConfig}
      → generate_chart_values config ≡ ok c
      → (found : Every (IsFound I vector version) image_names)
      → (m : Members) × (compute_calico_chart_values I vector network config on version wants_vpa
          ≡ ok m)
        × (go_map m ≡ go_map (listed_values network on wants_vpa found c))
  unfolding compute_calico_chart_values
  compute_calico_chart_values-listed network config on wants_vpa {c} e found =
      let (images, f, h) = images-listed found in
      (
        chart_values network on wants_vpa images (config_members c),
        rw (e, to_map-config_members c, f) refl,
        Quot.sound (chart_values-listed network on wants_vpa found c h),
      )
