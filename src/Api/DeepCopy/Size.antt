-- ===== src/Api/DeepCopy/Size.antt =====
-- How much memory a deep copy takes.
use gardener_extension_netwo.Prelude.{◌≡◌, ◌+◌, ◌≤◌, Option, some, length}
use gardener_extension_netwo.Api.Types.{NetworkConfig}
use gardener_extension_netwo.Api.Memory.{
  Ptr, NetworkConfigStruct, text, ipam, ipv4, typha, network_config, Memory, pure, text_in, ipam_in,
  ipv4_in, typha_in, network_config_in, copy_field,
}
use gardener_extension_netwo.Store.Sizes.{Adds, pure-Adds, >>=-Adds, copy_at-Adds, copy_field-Adds}
use gardener_extension_netwo.Api.DeepCopy.{
  copy_text, copy_ipam, copy_ipv4, copy_typha, copy_network_config, ipam_deep_copy_into,
  ipv4_deep_copy_into, network_config_deep_copy_into, network_config_deep_copy, zero_ipam,
  zero_ipv4, zero_typha, zero_network_config,
}
use gardener_extension_netwo.Api.DeepCopy.Fresh.{network_config_at, network_config_deep_copy-IsCopy}

copy_text-Adds : (p : Option Ptr) → Adds 1 (copy_field (text "") copy_text p)
unfolding copy_text
copy_text-Adds =
    copy_field-Adds 0 (text "") copy_text (copy_at-Adds 0 text_in text pure (λ s. pure-Adds s))

copy_typha-Adds : (p : Option Ptr) → Adds 1 (copy_field (typha zero_typha) copy_typha p)
unfolding copy_typha
copy_typha-Adds =
    copy_field-Adds 0 (typha zero_typha) copy_typha
      (copy_at-Adds 0 typha_in typha pure (λ s. pure-Adds s))

copy_ipam-Adds : (p : Option Ptr) → Adds 2 (copy_field (ipam zero_ipam) copy_ipam p)
unfolding copy_ipam ipam_deep_copy_into
copy_ipam-Adds = copy_field-Adds 1 (ipam zero_ipam) copy_ipam (
    copy_at-Adds 1 ipam_in ipam ipam_deep_copy_into λ s.
      >>=-Adds 1 0 (copy_field (text "") copy_text s.cidr) _ (copy_text-Adds s.cidr)
        λ cidr. pure-Adds _)

copy_ipv4-Adds : (p : Option Ptr) → Adds 4 (copy_field (ipv4 zero_ipv4) copy_ipv4 p)
unfolding copy_ipv4 ipv4_deep_copy_into
copy_ipv4-Adds = copy_field-Adds 3 (ipv4 zero_ipv4) copy_ipv4 (
    copy_at-Adds 3 ipv4_in ipv4 ipv4_deep_copy_into λ s.
      >>=-Adds 1 2 (copy_field (text "") copy_text s.pool) _ (copy_text-Adds s.pool) λ pool.
        >>=-Adds 1 1 (copy_field (text "") copy_text s.mode) _ (copy_text-Adds s.mode) λ mode.
          >>=-Adds 1 0 (copy_field (text "") copy_text s.auto_detection_method) _
            (copy_text-Adds s.auto_detection_method) λ method. pure-Adds _)

network_config_deep_copy_into-Adds :
    (s : NetworkConfigStruct) → Adds 11 (network_config_deep_copy_into s)
unfolding network_config_deep_copy_into
network_config_deep_copy_into-Adds s =
    >>=-Adds 1 10 (copy_field (text "") copy_text s.backend) _ (copy_text-Adds s.backend) λ backend.
      >>=-Adds 2 8 (copy_field (ipam zero_ipam) copy_ipam s.ipam) _ (copy_ipam-Adds s.ipam) λ ipam.
        >>=-Adds 4 4 (copy_field (ipv4 zero_ipv4) copy_ipv4 s.ipv4) _ (copy_ipv4-Adds s.ipv4)
          λ ipv4.
            >>=-Adds 1 3 (copy_field (typha zero_typha) copy_typha s.typha) _
              (copy_typha-Adds s.typha)
              λ typha.
                >>=-Adds 1 2 (copy_field (text "") copy_text s.veth_mtu) _
                  (copy_text-Adds s.veth_mtu)
                  λ mtu.
                    >>=-Adds 1 1 (copy_field (text "") copy_text s.ipip) _ (copy_text-Adds s.ipip)
                      λ ipip.
                        >>=-Adds 1 0 (copy_field (text "") copy_text s.ip_auto_detection_method) _
                          (copy_text-Adds s.ip_auto_detection_method) λ method. pure-Adds _

-- Where a pointer reads as a `NetworkConfig`, or is nil, its deep copy returns and takes at most twelve
-- cells.
pub network_config_deep_copy-size :
    (m : Memory) (p : Option Ptr) (v : Option NetworkConfig)
    → network_config_at p m ≡ some v
    → (q : Option Ptr) × (n : Memory) × (network_config_deep_copy p m ≡ some (q, n))
      × (length n ≤ 12 + length m)
unfolding network_config_deep_copy copy_network_config
network_config_deep_copy-size m p v h =
    let r = network_config_deep_copy-IsCopy m p v h in
    let adds = copy_field-Adds 11 (network_config zero_network_config) copy_network_config (
      copy_at-Adds 11 network_config_in network_config network_config_deep_copy_into
        network_config_deep_copy_into-Adds) in
    (r.out, r.after, r.returns, adds p m r.out r.after r.returns)
