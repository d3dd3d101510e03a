-- ===== src/Charts/Generate/Deprecated.antt =====
-- The deprecated fields of a `NetworkConfig` in `generateChartValues`.
use gardener_extension_netwo.Prelude.{
  ◌≡◌, refl, String, Option, none, some, Option-cases, Bool-cases, inl, inr,
}
use gardener_extension_netwo.Prelude.Result.{Result, ok, err, panic}
use gardener_extension_netwo.Api.Types.{Ipv4, Ipv4PoolMode, NetworkConfig}
use gardener_extension_netwo.Charts.Generate.{mode_supported, generate_chart_values}
use gardener_extension_netwo.Charts.Generate.Expected.{
  refused_backend, refused_mode, first_of_two, reject,
}
use gardener_extension_netwo.Charts.Generate.Reference.{generate_chart_values-expected}

-- The result without the error's text.
abbrev pub accepted {ℓ} : {A : Type ℓ} → Result A → Option A
accepted (ok a) = some a
accepted (err e) = none
accepted (panic e) = none

-- The same configuration in the new fields.
abbrev pub modernized : NetworkConfig → NetworkConfig
modernized config = elim config.ipv4 [
  | some v ↦ config
  | none ↦ record config {
    ipv4 = some (record {
      pool = none;
      mode = config.ipip;
      auto_detection_method = config.ip_auto_detection_method;
    });
    ipip = none;
    ip_auto_detection_method = none;
  }
]

-- Two refusals of the same mode differ in their texts alone.
accepted-refused_mode {ℓ} :
    {A : Type ℓ} (r : Option String) (p q : String) (m : Option Ipv4PoolMode) (a : A)
    → accepted (reject (first_of_two r (refused_mode p m)) a)
      ≡ accepted (reject (first_of_two r (refused_mode q m)) a)
accepted-refused_mode (some s) p q m a = refl
accepted-refused_mode none p q none a = refl
accepted-refused_mode none p q (some m) a = elim (Bool-cases (mode_supported m)) [
  | inl e ↦ rw e
  | inr e ↦ rw e
]

-- Moving the deprecated fields into `ipv4` changes nothing: the same configurations are accepted,
-- with the same chart configuration.
pub generate_chart_values-modernized :
    (config : NetworkConfig)
    → accepted (generate_chart_values (some (modernized config)))
      ≡ accepted (generate_chart_values (some config))
generate_chart_values-modernized config = elim (Option-cases config.ipv4) [
  | inl e ↦
      rw
        (
          generate_chart_values-expected (modernized config),
          generate_chart_values-expected config,
          e,
        )
        (accepted-refused_mode (refused_backend config.backend) _ _ config.ipip _)
  | inr (v, e) ↦ rw e
]

-- Where `ipv4` is given, the deprecated fields are not read.
pub generate_chart_values-ipv4 :
    (config : NetworkConfig) {v : Ipv4} (mode : Option Ipv4PoolMode) (method : Option String)
    → config.ipv4 ≡ some v
    → generate_chart_values
        (some (record config { ipip = mode; ip_auto_detection_method = method }))
      ≡ generate_chart_values (some config)
generate_chart_values-ipv4 config mode method e = rw (
  generate_chart_values-expected (record config { ipip = mode; ip_auto_detection_method = method }),
  generate_chart_values-expected config,
  e,
)

-- `&NetworkConfig{}`
abbrev pub empty_config : NetworkConfig
empty_config = record {
  type_meta = record { kind = ""; api_version = "" };
  backend = none;
  ipam = none;
  ipv4 = none;
  typha = none;
  veth_mtu = none;
  ipip = none;
  ip_auto_detection_method = none;
}

-- No configuration and an empty one are the same.
pub generate_chart_values-empty_config :
    generate_chart_values none ≡ generate_chart_values (some empty_config)
unfolding generate_chart_values
generate_chart_values-empty_config = refl
