-- ===== src/Tests/Api.antt =====
-- Deep copies in a small memory.
pub mod Internal
use gardener_extension_netwo.Prelude.{
  ℕ, ◌+◌, ◌≤◌, length, Option, true, ◌≡◌, refl, some, none, [], ◌∷◌, ◌++◌,
}
use gardener_extension_netwo.Actuator.Status.{status_type_meta}
use gardener_extension_netwo.Api.Types.{NetworkConfig}
use gardener_extension_netwo.Charts.Generate.Deprecated.{empty_config}
use gardener_extension_netwo.Api.Memory.{
  network_status, Memory, NetworkConfigStruct, text, ipam, network_config, ipv4, typha, Ptr,
}
use gardener_extension_netwo.Store.Copies.{IsCopy}
use gardener_extension_netwo.Api.DeepCopy.{
  network_status_deep_copy, zero_network_config, copy_text, ipam_deep_copy_into,
  ipv4_deep_copy_into, copy_ipv4, copy_typha, zero_type_meta, copy_ipam,
  network_config_deep_copy_into, copy_network_config, network_config_deep_copy,
}
use gardener_extension_netwo.Api.DeepCopy.Size.{network_config_deep_copy-size}
use gardener_extension_netwo.Api.DeepCopy.Fresh.{
  network_status_at, network_status_deep_copy-IsCopy, network_config_at,
  network_config_deep_copy-IsCopy,
}

-- Two fields point to the same text.
abbrev pub config_struct : NetworkConfigStruct
config_struct = record zero_network_config { backend = some 0; ipip = some 0; ipam = some 2 }

abbrev pub memory : Memory
memory =
    text "none"
    ∷ text "10.0.0.0/8"
    ∷ ipam (record { ipam_type = "host-local"; cidr = some 1 })
    ∷ network_config config_struct
    ∷ []

abbrev pub config : NetworkConfig
config = record empty_config {
  backend = some "none";
  ipip = some "none";
  ipam = some (record { ipam_type = "host-local"; cidr = some "10.0.0.0/8" });
}

-- The shared text is copied twice.
network_config_deep_copy_lem :
    network_config_deep_copy (some 3) memory
    ≡ some (
      some 4,
      memory
          ++ (network_config
                (record zero_network_config { backend = some 5; ipip = some 8; ipam = some 6 })
              ∷ text "none"
              ∷ ipam (record { ipam_type = "host-local"; cidr = some 7 })
              ∷ text "10.0.0.0/8"
              ∷ text "none"
              ∷ []),
    )
unfolding network_config_deep_copy copy_network_config network_config_deep_copy_into copy_ipam
    ipam_deep_copy_into copy_text
network_config_deep_copy_lem = refl

network_config_deep_copy-IsCopy_example :
    IsCopy 4 memory network_config_at (some config) (network_config_deep_copy (some 3) memory)
network_config_deep_copy-IsCopy_example =
    network_config_deep_copy-IsCopy memory (some 3) (some config) refl

-- A fault: the pointer is to a text.
fault_lem : network_config_deep_copy (some 0) memory ≡ none
unfolding network_config_deep_copy copy_network_config
fault_lem = refl

abbrev pub status_memory : Memory
status_memory = network_status (record { type_meta = status_type_meta }) ∷ []

status_copy_lem :
    IsCopy 1 status_memory network_status_at
      (some (record { type_meta = status_type_meta }))
      (network_status_deep_copy (some 0) status_memory)
status_copy_lem =
    network_status_deep_copy-IsCopy status_memory (some 0)
      (some (record { type_meta = status_type_meta })) refl

network_config_deep_copy-size_example :
    (q : Option Ptr) × (n : Memory) × (network_config_deep_copy (some 3) memory ≡ some (q, n))
    × (length n ≤ 12 + 4)
network_config_deep_copy-size_example =
    network_config_deep_copy-size memory (some 3) (some config) refl

-- A configuration with every pointer takes all twelve.
abbrev full_memory : Memory
full_memory =
    text "Always"
    ∷ ipam (record { ipam_type = "host-local"; cidr = some 0 })
    ∷ ipv4 (record { pool = some 0; mode = some 0; auto_detection_method = some 0 })
    ∷ typha (record { enabled = true })
    ∷ network_config (record {
      type_meta = zero_type_meta;
      backend = some 0;
      ipam = some 1;
      ipv4 = some 2;
      typha = some 3;
      veth_mtu = some 0;
      ipip = some 0;
      ip_auto_detection_method = some 0;
    })
    ∷ []

abbrev size_after : Option (Option Ptr × Memory) → ℕ
size_after none = 0
size_after (some (_, m)) = length m

full_size_lem : size_after (network_config_deep_copy (some 4) full_memory) ≡ 5 + 12
unfolding network_config_deep_copy copy_network_config network_config_deep_copy_into copy_ipam
    copy_ipv4 copy_typha ipam_deep_copy_into ipv4_deep_copy_into copy_text
full_size_lem = refl
