-- ===== src/Command/Config/Stored/Versions.antt =====
-- The two versions of the configuration: their deep copies do the same, and conversions keep what a
-- struct stands for.
use mathlib.Core.Option
use mathlib.Core.Path.{fun_ext}
use gardener_extension_netwo.Prelude.{◌≡◌, refl, Option, some, List, length, and_then, and_then-map}
use gardener_extension_netwo.Prelude.Result.{ok}
use gardener_extension_netwo.Store.{Ptr, copy_field}
use gardener_extension_netwo.Store.Copies.{IsCopy, optional, through}
use gardener_extension_netwo.Store.Casts.{copy_at-cast, copies-cast}
use gardener_extension_netwo.Api.Types.{TypeMeta}
use gardener_extension_netwo.Command.Config.{ControllerConfiguration}
use gardener_extension_netwo.Command.Config.Stored
use gardener_extension_netwo.Command.Config.Stored.{
  Cell, client_connection, health_check_config, configuration, client_connection_in,
  health_check_config_in, zero_health_check_config, copy_client_connection,
  copy_health_check_config,
}
use gardener_extension_netwo.Command.Config.Stored.Fresh
use gardener_extension_netwo.Command.Config.Stored.Fresh.{connection_at, health_check_at}
use gardener_extension_netwo.Command.Config.Stored.V1alpha1.{
  ConfigurationStruct, v1alpha1_configuration, configuration_cell, configuration_in,
  configuration_deep_copy_into, copy_configuration, configuration_deep_copy,
}
use gardener_extension_netwo.Command.Config.Stored.Conversion.{
  auto_convert_v1alpha1_configuration_to_config, convert_v1alpha1_configuration_to_config,
  auto_convert_config_configuration_to_v1alpha1, convert_config_configuration_to_v1alpha1,
}

module _ {C : Type 0} where
  -- The value that a struct of version v1alpha1 stands for.
  abbrev pub read_configuration :
      ConfigurationStruct → List (Cell C) → Option (ControllerConfiguration C)
  read_configuration s m = and_then (connection_at s.client_connection m) λ c.
      and_then (health_check_at s.health_check_config m) λ h.
        some (record { type_meta = s.type_meta; client_connection = c; health_check_config = h })

  abbrev pub configuration_at :
      Option Ptr → List (Cell C) → Option (Option (ControllerConfiguration C))
  configuration_at = optional (through configuration_in read_configuration)

  configuration_in-v1alpha1 :
      (c : Cell C)
      → configuration_in c ≡ Option.map v1alpha1_configuration (Stored.configuration_in c)
  configuration_in-v1alpha1 (configuration s) = refl
  configuration_in-v1alpha1 (client_connection s) = refl
  configuration_in-v1alpha1 (health_check_config s) = refl

  read_configuration-v1alpha1 :
      (s : Stored.ConfigurationStruct) (m : List (Cell C))
      → read_configuration (v1alpha1_configuration s) m
        ≡ Option.map (λ v. v) (Fresh.read_configuration s m)
  read_configuration-v1alpha1 s m =
      and_then-map _ (connection_at s.client_connection m) _ _
        λ c. and_then-map _ (health_check_at s.health_check_config m) _ _ λ h. refl

module _ {C : Type 0} (zero : C) where
  configuration_deep_copy_into-v1alpha1 :
      (s : Stored.ConfigurationStruct) (m : List (Cell C))
      → configuration_deep_copy_into zero (v1alpha1_configuration s) m
        ≡ Option.map
            (λ (x, n). (v1alpha1_configuration x, n))
            (Stored.configuration_deep_copy_into zero s m)
  unfolding configuration_deep_copy_into Stored.configuration_deep_copy_into
  configuration_deep_copy_into-v1alpha1 s m =
      and_then-map _
        (copy_field (client_connection zero) (copy_client_connection zero) s.client_connection m) _
        _
        λ (_, m).
          and_then-map _
            (copy_field zero_health_check_config (copy_health_check_config zero)
              s.health_check_config m)
            _ _ λ h. refl

  copy_configuration-same : copy_configuration zero ≡ Stored.copy_configuration zero
  unfolding copy_configuration Stored.copy_configuration
  copy_configuration-same = fun_ext λ p. fun_ext λ q. fun_ext λ m.
      copy_at-cast Stored.configuration_in configuration_in v1alpha1_configuration
        configuration_in-v1alpha1 configuration configuration_cell (λ a. refl)
        (Stored.configuration_deep_copy_into zero) (configuration_deep_copy_into zero)
        configuration_deep_copy_into-v1alpha1 p q m

  -- On every pointer and memory, the deep copies of both versions return the same pointer and leave the
  -- same memory.
  pub configuration_deep_copy-same :
      configuration_deep_copy zero ≡ Stored.configuration_deep_copy zero
  unfolding configuration_deep_copy Stored.configuration_deep_copy
  configuration_deep_copy-same = rw copy_configuration-same refl

  -- Where a pointer reads at version v1alpha1 as `v`, its deep copy returns, reads as `v` through cells
  -- of its own alone, and leaves the cells that were there as they were.
  pub v1alpha1_configuration_deep_copy-IsCopy :
      (m : List (Cell C)) (p : Option Ptr) (v : Option (ControllerConfiguration C))
      → configuration_at p m ≡ some v
      → IsCopy (length m) m configuration_at v (configuration_deep_copy zero p m)
  v1alpha1_configuration_deep_copy-IsCopy m p v h =
      copies-cast Stored.configuration_in configuration_in v1alpha1_configuration
        configuration_in-v1alpha1 Fresh.read_configuration read_configuration (λ v. v)
        read_configuration-v1alpha1 (length m) m p
        (λ v e. rw configuration_deep_copy-same (Fresh.configuration_deep_copy-IsCopy zero m p v e))
        v h

module _ {C : Type 0} where
  abbrev pub with_type_meta :
      TypeMeta → Option (ControllerConfiguration C) → Option (ControllerConfiguration C)
  with_type_meta meta =
      Option.map {A = ControllerConfiguration C} (λ v. record v { type_meta = meta })

  -- A conversion ends well. In every memory, the struct that it leaves stands for the value of the struct
  -- it came from, with the type meta that was there before; or for none if that has none. Converted
  -- back, it is the struct it came from, but for the type meta.
  pub convert_configuration-read :
      (source back : ConfigurationStruct) (out : Stored.ConfigurationStruct) (m : List (Cell C))
      → (x : Stored.ConfigurationStruct) × (convert_v1alpha1_configuration_to_config source out
          ≡ ok x)
        × (Fresh.read_configuration x m
            ≡ with_type_meta out.type_meta (read_configuration source m))
        × (convert_config_configuration_to_v1alpha1 x back
            ≡ ok (record source { type_meta = back.type_meta }))
  unfolding convert_v1alpha1_configuration_to_config convert_config_configuration_to_v1alpha1
      auto_convert_v1alpha1_configuration_to_config auto_convert_config_configuration_to_v1alpha1
  convert_configuration-read source back out m = (
    _,
    refl,
    and_then-map _ (connection_at source.client_connection m) _ _
        (λ c. and_then-map _ (health_check_at source.health_check_config m) _ _ λ h. refl),
    refl,
  )
