-- ===== src/Api/Internal/DeepCopy/Same.antt =====
-- The deep copies of both packages do the same to a memory, and what that means for the copies of
-- pkg/apis/calico.
use mathlib.Core.Option
use mathlib.Core.Path.{fun_ext}
use gardener_extension_netwo.Prelude.{◌≡◌, refl, Option, and_then-map}
use gardener_extension_netwo.Store.Casts.{copy_at-cast}
use gardener_extension_netwo.Api.Types.{TypeMeta}
use gardener_extension_netwo.Api.Memory
use gardener_extension_netwo.Api.Memory.{
  Ptr, Cell, Memory, Cmd, text, ipam, ipv4, typha, network_config, network_status, copy_field, pure,
}
use gardener_extension_netwo.Api.DeepCopy
use gardener_extension_netwo.Api.DeepCopy.{copy_text}
use gardener_extension_netwo.Api.Internal.Memory.{
  ipam_cell, ipv4_cell, typha_cell, network_config_cell, network_status_cell, ipam_in, ipv4_in,
  typha_in, network_config_in, network_status_in, internal_ipam, internal_ipv4, internal_typha,
  internal_network_config, internal_network_status,
}
use gardener_extension_netwo.Api.Internal.Memory.Readings.{
  ipam_in-internal, ipv4_in-internal, typha_in-internal, network_config_in-internal,
  network_status_in-internal,
}
use gardener_extension_netwo.Api.Internal.DeepCopy.{
  ipam_deep_copy_into, copy_ipam, ipv4_deep_copy_into, copy_ipv4, copy_typha,
  network_config_deep_copy_into, copy_network_config, network_config_deep_copy, copy_network_status,
  network_status_deep_copy,
}

-- What a copy leaves in `*out`, at the other type.
abbrev pub cast_out : {A B : Type 0} → (A → B) → Option (A × Memory) → Option (B × Memory)
cast_out cast = Option.map (λ (a, m). (cast a, m))

ipam_deep_copy_into-internal :
    (s : Memory.IpamStruct) (m : Memory)
    → ipam_deep_copy_into (internal_ipam s) m
      ≡ cast_out internal_ipam (DeepCopy.ipam_deep_copy_into s m)
unfolding ipam_deep_copy_into DeepCopy.ipam_deep_copy_into
ipam_deep_copy_into-internal s m =
    and_then-map _ (copy_field (text "") copy_text s.cidr m) _ _ λ cidr. refl

ipv4_deep_copy_into-internal :
    (s : Memory.Ipv4Struct) (m : Memory)
    → ipv4_deep_copy_into (internal_ipv4 s) m
      ≡ cast_out internal_ipv4 (DeepCopy.ipv4_deep_copy_into s m)
unfolding ipv4_deep_copy_into DeepCopy.ipv4_deep_copy_into
ipv4_deep_copy_into-internal s m =
    and_then-map _ (copy_field (text "") copy_text s.pool m) _ _ λ (_, m).
      and_then-map _ (copy_field (text "") copy_text s.mode m) _ _ λ (_, m).
        and_then-map _ (copy_field (text "") copy_text s.auto_detection_method m) _ _ λ method. refl

copy_ipam-same : copy_ipam ≡ DeepCopy.copy_ipam
unfolding copy_ipam DeepCopy.copy_ipam
copy_ipam-same = fun_ext λ p. fun_ext λ q. fun_ext λ m.
    copy_at-cast Memory.ipam_in ipam_in internal_ipam ipam_in-internal ipam ipam_cell (λ a. refl)
      DeepCopy.ipam_deep_copy_into ipam_deep_copy_into ipam_deep_copy_into-internal p q m

copy_ipv4-same : copy_ipv4 ≡ DeepCopy.copy_ipv4
unfolding copy_ipv4 DeepCopy.copy_ipv4
copy_ipv4-same = fun_ext λ p. fun_ext λ q. fun_ext λ m.
    copy_at-cast Memory.ipv4_in ipv4_in internal_ipv4 ipv4_in-internal ipv4 ipv4_cell (λ a. refl)
      DeepCopy.ipv4_deep_copy_into ipv4_deep_copy_into ipv4_deep_copy_into-internal p q m

copy_typha-same : copy_typha ≡ DeepCopy.copy_typha
unfolding copy_typha DeepCopy.copy_typha
copy_typha-same = fun_ext λ p. fun_ext λ q. fun_ext λ m.
    copy_at-cast Memory.typha_in typha_in internal_typha typha_in-internal typha typha_cell
      (λ a. refl) pure pure (λ a m. refl) p q m

-- Copying a `NetworkConfig` that was cast is casting its copy, whatever becomes of the type meta.
pub network_config_deep_copy_into-internal :
    (meta : TypeMeta → TypeMeta) (s : Memory.NetworkConfigStruct) (m : Memory)
    → network_config_deep_copy_into
        (record (internal_network_config s) { type_meta = meta s.type_meta })
        m
      ≡ cast_out
          (λ x. record (internal_network_config x) { type_meta = meta x.type_meta })
          (DeepCopy.network_config_deep_copy_into s m)
unfolding network_config_deep_copy_into DeepCopy.network_config_deep_copy_into
network_config_deep_copy_into-internal meta s m =
    rw (copy_ipam-same, copy_ipv4-same, copy_typha-same)
      (and_then-map _ (copy_field (text "") copy_text s.backend m) _ _ λ (_, m).
        and_then-map _ (copy_field (ipam DeepCopy.zero_ipam) DeepCopy.copy_ipam s.ipam m) _ _
          λ (_, m).
            and_then-map _ (copy_field (ipv4 DeepCopy.zero_ipv4) DeepCopy.copy_ipv4 s.ipv4 m) _ _
              λ (_, m).
                and_then-map _
                  (copy_field (typha DeepCopy.zero_typha) DeepCopy.copy_typha s.typha m) _ _
                  λ (_, m).
                    and_then-map _ (copy_field (text "") copy_text s.veth_mtu m) _ _ λ (_, m).
                      and_then-map _ (copy_field (text "") copy_text s.ipip m) _ _ λ (_, m).
                        and_then-map _ (copy_field (text "") copy_text s.ip_auto_detection_method m)
                          _ _ λ method. refl)

copy_network_config-same : copy_network_config ≡ DeepCopy.copy_network_config
unfolding copy_network_config DeepCopy.copy_network_config
copy_network_config-same = fun_ext λ p. fun_ext λ q. fun_ext λ m.
    copy_at-cast Memory.network_config_in network_config_in internal_network_config
      network_config_in-internal network_config network_config_cell (λ a. refl)
      DeepCopy.network_config_deep_copy_into network_config_deep_copy_into
      (network_config_deep_copy_into-internal (λ meta. meta)) p q m

copy_network_status-same : copy_network_status ≡ DeepCopy.copy_network_status
unfolding copy_network_status DeepCopy.copy_network_status
copy_network_status-same = fun_ext λ p. fun_ext λ q. fun_ext λ m.
    copy_at-cast Memory.network_status_in network_status_in internal_network_status
      network_status_in-internal network_status network_status_cell (λ a. refl) pure pure
      (λ a m. refl) p q m

-- On every pointer and memory, the deep copies of both packages return the same pointer and leave the
-- same memory.
pub network_config_deep_copy-same : network_config_deep_copy ≡ DeepCopy.network_config_deep_copy
unfolding network_config_deep_copy DeepCopy.network_config_deep_copy
network_config_deep_copy-same = rw copy_network_config-same refl

pub network_status_deep_copy-same : network_status_deep_copy ≡ DeepCopy.network_status_deep_copy
unfolding network_status_deep_copy DeepCopy.network_status_deep_copy
network_status_deep_copy-same = rw copy_network_status-same refl
