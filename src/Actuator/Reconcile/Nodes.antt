-- ===== src/Actuator/Reconcile/Nodes.antt =====
-- What the nodes' network of the shoot changes in the chart configuration.
use gardener_extension_netwo.Prelude.{
  ◌≡◌, refl, ◌∙◌, String, ◌<>◌, Bool, false, ◌&&◌, not, Option, none, some, ◌==◌, get_or, is_some,
  Option-cases, inl, inr,
}
use gardener_extension_netwo.Prelude.Result.{ok, ◌>>=◌}
use gardener_extension_netwo.Api.Types.{Ipv4, Ipv4PoolMode, NetworkConfig}
use gardener_extension_netwo.Charts.Config.{CalicoConfig}
use gardener_extension_netwo.Charts.Generate.{generate_chart_values}
use gardener_extension_netwo.Charts.Generate.Expected.{reject}
use gardener_extension_netwo.Charts.Generate.Reference.{generate_chart_values-expected}
use gardener_extension_netwo.Charts.Generate.Deprecated.{
  generate_chart_values-ipv4, empty_config, generate_chart_values-empty_config,
}
use gardener_extension_netwo.Actuator.Reconcile.{
  detect_nodes, with_auto_detection_method, new_network_config, new_ipv4,
}

-- The chart configuration with the detection method for the nodes.
abbrev pub detecting : String → CalicoConfig → CalicoConfig
detecting nodes c = record c {
  ipv4 = record (c.ipv4) { auto_detection_method = some ("cidr=" <> nodes) };
}

-- The deprecated mode matters: there is one, and no `ipv4` that hides it.
abbrev pub uses_ipip : NetworkConfig → Bool
uses_ipip config = not (is_some config.ipv4) && is_some config.ipip

reject-map {ℓ κ} :
    {A : Type ℓ} {B : Type κ} (m : Option String) (a : A) (f : A → B)
    → (reject m a >>= λ x. ok (f x)) ≡ reject m (f a)
reject-map none a f = refl
reject-map (some s) a f = refl

is_some-eq-false {ℓ} : {A : Type ℓ} (o : Option A) → is_some o ≡ false → o ≡ none
is_some-eq-false none h = refl
is_some-eq-false (some a) h = cc

module _ (nodes : String) (given : (nodes == "") ≡ false) where
  detect_some :
      (config : NetworkConfig)
      → uses_ipip config ≡ false
      → generate_chart_values (with_auto_detection_method nodes (some config))
        ≡ (generate_chart_values (some config) >>= λ c. ok (detecting nodes c))
  detect_some config unused = elim (Option-cases config.ipv4) [
    | inl e ↦ rw (
      generate_chart_values-expected,
      generate_chart_values-expected config,
      reject-map _ _ (detecting nodes),
      e,
      is_some-eq-false config.ipip (rw e at unused),
    )
    | inr (v, e) ↦ rw (
      generate_chart_values-expected,
      generate_chart_values-expected config,
      reject-map _ _ (detecting nodes),
      e,
    )
  ]

  -- A shoot's network of nodes sets the detection method and changes nothing else, unless the
  -- configuration has the deprecated mode and no `ipv4`.
  pub detect_nodes-detecting :
      (config : Option NetworkConfig)
      → uses_ipip (get_or config new_network_config) ≡ false
      → generate_chart_values (detect_nodes (some nodes) config)
        ≡ (generate_chart_values config >>= λ c. ok (detecting nodes c))
  unfolding detect_nodes
  detect_nodes-detecting none unused =
      rw (given, generate_chart_values-empty_config) (detect_some empty_config refl)
  detect_nodes-detecting (some config) unused = rw given (detect_some config unused)

  -- With a shoot's network of nodes, the deprecated mode of a configuration without `ipv4` is not
  -- read: whatever it is, supported or not, the chart configuration is the one for no mode at all.
  pub detect_nodes-ipip :
      (config : NetworkConfig) (mode : Option Ipv4PoolMode)
      → config.ipv4 ≡ none
      → generate_chart_values (detect_nodes (some nodes) (some (record config { ipip = mode }))) ≡ (
          generate_chart_values (some (record config { ipip = none })) >>= λ c.
          ok (detecting nodes c))
  unfolding detect_nodes
  detect_nodes-ipip config mode e =
      let written : Ipv4 = record (get_or config.ipv4 new_ipv4) {
        auto_detection_method = some ("cidr=" <> nodes);
      } in
      rw given (
        generate_chart_values-ipv4 (record config { ipip = none; ipv4 = some written }) mode
          config.ip_auto_detection_method refl
        ∙ detect_some (record config { ipip = none }) (rw e))
