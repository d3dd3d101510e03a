-- ===== src/Charts/Marshal/Listed.antt =====
-- The whole map that `toMap` returns.
use gardener_extension_netwo.Prelude.{refl}
use gardener_extension_netwo.Json.{boolean, text, object, Members, end, member, optional_text}
use gardener_extension_netwo.Json.Maps.{Agree, same, like, ◌◂◌, Covers-Agree}
use gardener_extension_netwo.Charts.Config.{CalicoConfig}
use gardener_extension_netwo.Charts.Marshal.{
  config_members, felix_ipinip_value, felix_value, ipv4_value, ipam_value, kube_controllers_value,
  monitoring_value, typha_value,
}

-- The chart configuration, its keys in the order of the alphabet.
abbrev pub listed_config : CalicoConfig → Members
listed_config c = member "backend" (text c.backend) (
    member "felix"
      (object
        (member "ipinip" (object (member "enabled" (boolean c.felix.ipinip.enabled) end)) end))
      (member "ipam"
        (object (member "subnet" (text c.ipam.subnet) (member "type" (text c.ipam.ipam_type) end)))
        (member "ipv4"
          (object (
            member "autoDetectionMethod" (optional_text c.ipv4.auto_detection_method)
              (member "mode" (text c.ipv4.mode) (member "pool" (text c.ipv4.pool) end))))
          (member "kubeControllers"
            (object (member "enabled" (boolean c.kube_controllers.enabled) end))
            (member "monitoring"
              (object (
                member "enabled" (boolean c.monitoring.enabled) (
                  member "felixMetricsPort" (text c.monitoring.felix_metrics_port)
                    (member "typhaMetricsPort" (text c.monitoring.typha_metrics_port) end))))
              (member "typha" (object (member "enabled" (boolean c.typha.enabled) end))
                (member "veth_mtu" (text c.veth_mtu) end)))))))

pub config-listed : (c : CalicoConfig) → Agree (config_members c) (listed_config c)
unfolding config_members felix_ipinip_value felix_value ipv4_value ipam_value kube_controllers_value
    monitoring_value typha_value
config-listed c =
    Covers-Agree _ _
      (same refl
        ◂ same refl
        ◂ like refl (
            Covers-Agree _ _ (same refl ◂ same refl ◂ same refl ◂ tt)
              (same refl ◂ same refl ◂ same refl ◂ tt))
        ◂ like refl (Covers-Agree _ _ (same refl ◂ same refl ◂ tt) (same refl ◂ same refl ◂ tt))
        ◂ same refl
        ◂ same refl
        ◂ same refl
        ◂ like refl (
            Covers-Agree _ _ (same refl ◂ same refl ◂ same refl ◂ tt)
              (same refl ◂ same refl ◂ same refl ◂ tt))
        ◂ tt)
      (same refl
        ◂ same refl
        ◂ like refl (Covers-Agree _ _ (same refl ◂ same refl ◂ tt) (same refl ◂ same refl ◂ tt))
        ◂ like refl (
            Covers-Agree _ _ (same refl ◂ same refl ◂ same refl ◂ tt)
              (same refl ◂ same refl ◂ same refl ◂ tt))
        ◂ same refl
        ◂ like refl (
            Covers-Agree _ _ (same refl ◂ same refl ◂ same refl ◂ tt)
              (same refl ◂ same refl ◂ same refl ◂ tt))
        ◂ same refl
        ◂ same refl
        ◂ tt)
