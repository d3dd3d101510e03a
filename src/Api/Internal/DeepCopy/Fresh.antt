-- ===== src/Api/Internal/DeepCopy/Fresh.antt =====
-- A deep copy by pkg/apis/calico stands for the same value, in cells of its own.
use gardener_extension_netwo.Prelude.{◌≡◌, refl, Option, some, length}
use gardener_extension_netwo.Store.Copies.{IsCopy, optional, through}
use gardener_extension_netwo.Store.Casts.{copies-cast}
use gardener_extension_netwo.Api.Memory
use gardener_extension_netwo.Api.Memory.{Ptr, Memory}
use gardener_extension_netwo.Api.Memory.Readings
use gardener_extension_netwo.Api.DeepCopy.Fresh
use gardener_extension_netwo.Api.Internal.Types.{NetworkConfig, NetworkStatus}
use gardener_extension_netwo.Api.Internal.Memory.{
  network_config_in, network_status_in, internal_network_config, internal_network_status,
}
use gardener_extension_netwo.Api.Internal.Memory.Readings.{
  read_network_config, read_network_status, network_config_value, network_status_value,
  network_config_in-internal, network_status_in-internal, read_network_config-internal,
}
use gardener_extension_netwo.Api.Internal.DeepCopy.{
  network_config_deep_copy, network_status_deep_copy,
}
use gardener_extension_netwo.Api.Internal.DeepCopy.Same.{
  network_config_deep_copy-same, network_status_deep_copy-same,
}

abbrev pub network_config_at : Option Ptr → Memory → Option (Option NetworkConfig)
network_config_at = optional (through network_config_in read_network_config)

abbrev pub network_status_at : Option Ptr → Memory → Option (Option NetworkStatus)
network_status_at = optional (through network_status_in read_network_status)

-- Where a pointer, nil or not, reads at the internal type as `v`, the internal deep copy returns; every
-- cell that was there is as before; and the copy reads as `v`, in every memory too that has the
-- cells the copy added, whatever its older cells hold then.
pub internal_network_config_deep_copy-IsCopy :
    (m : Memory) (p : Option Ptr) (v : Option NetworkConfig)
    → network_config_at p m ≡ some v
    → IsCopy (length m) m network_config_at v (network_config_deep_copy p m)
internal_network_config_deep_copy-IsCopy m p v h =
    copies-cast Memory.network_config_in network_config_in internal_network_config
      network_config_in-internal Readings.read_network_config read_network_config
      (λ v. network_config_value v.type_meta v) (read_network_config-internal (λ meta. meta))
      (length m) m p
      (λ v e. rw network_config_deep_copy-same (Fresh.network_config_deep_copy-IsCopy m p v e)) v h

-- The same of a `NetworkStatus`: the copy reads as the value of the original, in a cell of its own, and
-- the cells that were there are as before.
pub internal_network_status_deep_copy-IsCopy :
    (m : Memory) (p : Option Ptr) (v : Option NetworkStatus)
    → network_status_at p m ≡ some v
    → IsCopy (length m) m network_status_at v (network_status_deep_copy p m)
internal_network_status_deep_copy-IsCopy m p v h =
    copies-cast Memory.network_status_in network_status_in internal_network_status
      network_status_in-internal Readings.read_network_status read_network_status
      network_status_value (λ s m. refl) (length m) m p
      (λ v e. rw network_status_deep_copy-same (Fresh.network_status_deep_copy-IsCopy m p v e)) v h
