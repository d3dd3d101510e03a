-- ===== src/Charts/Render.antt =====
-- pkg/charts/values.go
use gardener_extension_netwo.Prelude.{String, Bool, Option}
use gardener_extension_netwo.Prelude.Result.{Result, ok, ◌>>=◌}
use gardener_extension_netwo.Calico.{calico_chart_path, release_name}
use gardener_extension_netwo.Gardener.{Bytes, Network}
use gardener_extension_netwo.Json.Maps.{GoMap, go_map}
use gardener_extension_netwo.Api.Types.{NetworkConfig}
use gardener_extension_netwo.Images.{ImageVectors}
use gardener_extension_netwo.Charts.Values.{compute_calico_chart_values}

abbrev pub calico_config_key : String
calico_config_key = "config.yaml"

-- `metav1.NamespaceSystem`
abbrev pub namespace_system : String
namespace_system = "kube-system"

-- gardener's package chartrenderer, and the factory that makes a renderer for the version of a
-- shoot. `render` takes a chart's path, a release's name, a namespace and the values.
pub record ChartRenderers : Type 1 where
  pub Renderer : Type 0
  pub Release : Type 0
  pub new_for_shoot : String → Result Renderer
  pub render : Renderer → String → String → String → GoMap → Result Release
  pub manifest : Release → Bytes

module _ (I : ImageVectors) (vector : I.ImageVector) (C : ChartRenderers) where
  unfoldable pub render_calico_chart :
      C.Renderer → Network → Option NetworkConfig → Bool → String → Bool → Result Bytes
  render_calico_chart renderer network config system_components_activated version wants_vpa = do
    values ←
        compute_calico_chart_values I vector network config system_components_activated version
          wants_vpa
    release ← C.render renderer calico_chart_path release_name namespace_system (go_map values)
    ok (C.manifest release)
