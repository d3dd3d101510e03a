-- ===== src/Command/Config/Stored/Fresh.antt =====
-- The deep copy of a configuration, in cells of its own.
use gardener_extension_netwo.Prelude.{
  ◌≡◌, refl, ap, ◌∙◌, ℕ, ◌≤◌, Option, some, List, arith, length, and_then, and_then-eq-some,
  some-injective,
}
use gardener_extension_netwo.Store.{Ptr, pure, copy_field}
use gardener_extension_netwo.Store.Copies.{
  Agree, Agree-refl, Extends-trans, Own, Own-extends, IsCopy, Builds, optional, through,
  copy_field-IsCopy, IsCopy-later, IsCopy-pure,
}
use gardener_extension_netwo.Store.Stable.{Stable, field-Stable}
use gardener_extension_netwo.Command.Config.{HealthCheckConfig, ControllerConfiguration}
use gardener_extension_netwo.Command.Config.Stored.{
  ConfigurationStruct, Cell, client_connection, health_check_config, configuration,
  client_connection_in, health_check_config_in, configuration_in, zero_health_check_config,
  zero_configuration_struct, copy_client_connection, copy_health_check_config,
  configuration_deep_copy_into, copy_configuration, configuration_deep_copy,
}

module _ {C : Type 0} where
  abbrev read_value : {A : Type 0} → A → List (Cell C) → Option A
  read_value a m = some a

  abbrev pub connection_at : Option Ptr → List (Cell C) → Option (Option C)
  connection_at = optional (through client_connection_in read_value)

  abbrev pub health_check_at : Option Ptr → List (Cell C) → Option (Option HealthCheckConfig)
  health_check_at = optional (through health_check_config_in read_value)

  -- The value that a struct stands for in a memory.
  abbrev pub read_configuration :
      ConfigurationStruct → List (Cell C) → Option (ControllerConfiguration C)
  read_configuration s m = and_then (connection_at s.client_connection m) λ c.
      and_then (health_check_at s.health_check_config m) λ h.
        some (record { type_meta = s.type_meta; client_connection = c; health_check_config = h })

  abbrev pub configuration_at :
      Option Ptr → List (Cell C) → Option (Option (ControllerConfiguration C))
  configuration_at = optional (through configuration_in read_configuration)

  read_configuration-eq-some :
      (s : ConfigurationStruct) (m : List (Cell C)) {v : ControllerConfiguration C}
      → read_configuration s m ≡ some v
      → (s.type_meta ≡ v.type_meta)
        × (connection_at s.client_connection m ≡ some v.client_connection)
        × (health_check_at s.health_check_config m ≡ some v.health_check_config)
  read_configuration-eq-some s m h =
      let (c, e, h) = and_then-eq-some (connection_at s.client_connection m) _ h in
      let (k, f, h) = and_then-eq-some (health_check_at s.health_check_config m) _ h in
      let q = some-injective h in
      (
        ap (λ x. x.type_meta) q,
        e ∙ ap (λ x. some x.client_connection) q,
        f ∙ ap (λ x. some x.health_check_config) q,
      )

  read_value-Stable : {A : Type 0} → Stable (read_value {A = A})
  read_value-Stable s m v h = λ o agree. h

  read_configuration-Stable : Stable read_configuration
  read_configuration-Stable s m v h = λ o agree.
      let (t, e, f) = read_configuration-eq-some s m h in
      rw (
        field-Stable client_connection_in read_value read_value-Stable s.client_connection m _ e o
            agree,
        field-Stable health_check_config_in read_value read_value-Stable s.health_check_config m _ f
            o agree,
        t,
      )

module _ {C : Type 0} (zero : C) where
  copy_client_connection-IsCopy :
      (n : ℕ) (m : List (Cell C)) (p : Option Ptr) (v : Option C)
      → n ≤ length m
      → Own 0 m (connection_at p) v
      → IsCopy n m connection_at v
          (copy_field (client_connection zero) (copy_client_connection zero) p m)
  unfolding copy_client_connection
  copy_client_connection-IsCopy =
      copy_field-IsCopy client_connection_in client_connection (λ a. refl) (client_connection zero)
        pure read_value
        (λ n m s v h own. IsCopy-pure n m read_value v s (λ o agree. own m (Agree-refl 0 m)))

  copy_health_check_config-IsCopy :
      (n : ℕ) (m : List (Cell C)) (p : Option Ptr) (v : Option HealthCheckConfig)
      → n ≤ length m
      → Own 0 m (health_check_at p) v
      → IsCopy n m health_check_at v
          (copy_field zero_health_check_config (copy_health_check_config zero) p m)
  unfolding copy_health_check_config
  copy_health_check_config-IsCopy =
      copy_field-IsCopy health_check_config_in health_check_config (λ a. refl)
        zero_health_check_config pure read_value
        (λ n m s v h own. IsCopy-pure n m read_value v s (λ o agree. own m (Agree-refl 0 m)))

  configuration_deep_copy_into-Builds :
      Builds read_configuration (configuration_deep_copy_into zero)
  unfolding configuration_deep_copy_into
  configuration_deep_copy_into-Builds n m s v h own =
      let field =
        λ (o : List (Cell C)) (agree : Agree 0 m o). read_configuration-eq-some s o (own o agree) in
      let a =
        copy_client_connection-IsCopy n m s.client_connection v.client_connection h
          (λ o agree. (field o agree).1) in
      let b =
        IsCopy-later copy_health_check_config-IsCopy h a.kept s.health_check_config
          v.health_check_config (λ o agree. (field o agree).2) in
      record {
        out = record {
          type_meta = s.type_meta;
          client_connection = a.out;
          health_check_config = b.out;
        };
        after = b.after;
        returns = rw (a.returns, b.returns);
        kept = Extends-trans a.kept b.kept;
        owned = λ o agree. rw (
          Own-extends (connection_at a.out) a.owned b.kept o agree,
          b.owned o agree,
          (field m (Agree-refl 0 m)).0,
        );
      }

  -- Where a pointer to a configuration, nil or not, reads as `v`, its deep copy returns, reads as `v`
  -- through cells of its own alone, and leaves the cells that were there as they were.
  pub configuration_deep_copy-IsCopy :
      (m : List (Cell C)) (p : Option Ptr) (v : Option (ControllerConfiguration C))
      → configuration_at p m ≡ some v
      → IsCopy (length m) m configuration_at v (configuration_deep_copy zero p m)
  unfolding configuration_deep_copy copy_configuration
  configuration_deep_copy-IsCopy m p v h =
      copy_field-IsCopy configuration_in configuration (λ a. refl) zero_configuration_struct
        (configuration_deep_copy_into zero) read_configuration configuration_deep_copy_into-Builds
        (length m) m p v (omega arith)
        (field-Stable configuration_in read_configuration read_configuration-Stable p m v h)
