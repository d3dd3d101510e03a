-- ===== src/Charts/Generate/Untyped.antt =====
-- An IPAM without a type in `generateChartValues`.
use gardener_extension_netwo.Prelude.{◌≡◌, Option-cases, inl, inr, Option, none, some}
use gardener_extension_netwo.Api.Types.{Cidr, NetworkConfig}
use gardener_extension_netwo.Charts.Generate.{generate_chart_values}
use gardener_extension_netwo.Charts.Generate.Reference.{generate_chart_values-expected}

-- The type of an IPAM without a type is the default, but its CIDR is not read, whatever it is: the result
-- is the one for no IPAM at all.
pub generate_chart_values-untyped_ipam :
    (config : NetworkConfig) (cidr : Option Cidr)
    → generate_chart_values
        (some (record config { ipam = some (record { ipam_type = ""; cidr = cidr }) }))
      ≡ generate_chart_values (some (record config { ipam = none }))
generate_chart_values-untyped_ipam config cidr =
    let untyped : NetworkConfig = record config {
      ipam = some (record { ipam_type = ""; cidr = cidr });
    } in
    let without : NetworkConfig = record config { ipam = none } in
    elim (Option-cases config.ipv4) [
      | inl e ↦
          rw (generate_chart_values-expected untyped, generate_chart_values-expected without, e)
      | inr (v, e) ↦
          rw (generate_chart_values-expected untyped, generate_chart_values-expected without, e)
    ]
