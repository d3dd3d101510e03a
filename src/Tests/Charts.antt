-- ===== src/Tests/Charts.antt =====
-- The chart configuration and the values of the chart.
use gardener_extension_netwo.Prelude.{
  ◌≡◌, refl, String, ◌<>◌, ◌==◌, Every, true, none, some, [], ◌∷◌, if◌then◌else◌,
}
use gardener_extension_netwo.Prelude.Result.{Error, Result, ok, err, errorf}
use gardener_extension_netwo.Json.{Members}
use gardener_extension_netwo.Json.Maps.{go_map}
use gardener_extension_netwo.Charts.Config.{CalicoConfig}
use gardener_extension_netwo.Charts.Generate.{generate_chart_values}
use gardener_extension_netwo.Charts.Generate.Expected.{expected, first_refused, reject}
use gardener_extension_netwo.Charts.Generate.Reference.{generate_chart_values-expected}
use gardener_extension_netwo.Charts.Generate.Deprecated.{
  accepted, modernized, generate_chart_values-modernized, generate_chart_values-ipv4,
}
use gardener_extension_netwo.Charts.Generate.Ranges.{
  IsRenderable, generate_chart_values-IsRenderable,
}
use gardener_extension_netwo.Charts.Generate.Untyped.{generate_chart_values-untyped_ipam}
use gardener_extension_netwo.Charts.Marshal.{to_map}
use gardener_extension_netwo.Charts.Marshal.Paths.{HoldsConfig, to_map-HoldsConfig}
use gardener_extension_netwo.Charts.Values.{image_values, compute_calico_chart_values}
use gardener_extension_netwo.Images.{find_image}
use gardener_extension_netwo.Charts.Values.Laws.{
  IsChart, compute_calico_chart_values-IsChart, compute_calico_chart_values-err, IsFound,
  image_names,
}
use gardener_extension_netwo.Charts.Values.Listed.{
  listed_values, compute_calico_chart_values-listed,
}
use gardener_extension_netwo.Calico.{node_image_name}
use gardener_extension_netwo.Charts.Templates.{Functions, fill}
use gardener_extension_netwo.Charts.Templates.Node.{
  configmap_calico_config, calico_node_image_and_ports, calico_node_environment, calico_node_probes,
  values_yaml_keys,
}
use gardener_extension_netwo.Charts.Templates.Filled.{
  configmap_texts, image_and_ports_texts, environment_texts, probes_texts, all_given,
  compute_calico_chart_values-filled,
}
use gardener_extension_netwo.Tests.Inputs.{
  full_config, deprecated_config, refused_config, all_images, network,
}

-- The configuration with all fields: nothing is left at its default.
full_config_lem :
    generate_chart_values (some full_config)
    ≡ ok (record (expected full_config) { backend = "vxlan"; veth_mtu = "1430" })
unfolding generate_chart_values
full_config_lem = refl

refused_config_lem :
    generate_chart_values (some refused_config)
    ≡ err (errorf "unsupported value for backend: ipsec")
unfolding generate_chart_values
refused_config_lem = refl

generate_chart_values-expected_example :
    generate_chart_values (some refused_config)
    ≡ reject (first_refused refused_config) (expected refused_config)
generate_chart_values-expected_example = generate_chart_values-expected refused_config

generate_chart_values-modernized_example :
    accepted (generate_chart_values (some (modernized deprecated_config)))
    ≡ accepted (generate_chart_values (some deprecated_config))
generate_chart_values-modernized_example = generate_chart_values-modernized deprecated_config

deprecated_unread_lem :
    generate_chart_values
      (some (record full_config { ipip = some "Sometimes"; ip_auto_detection_method = none }))
    ≡ generate_chart_values (some full_config)
deprecated_unread_lem = generate_chart_values-ipv4 full_config (some "Sometimes") none refl

generate_chart_values-IsRenderable_example : IsRenderable (expected full_config)
generate_chart_values-IsRenderable_example =
    generate_chart_values-IsRenderable (some full_config) {c = expected full_config} full_config_lem

to_map-HoldsConfig_example :
    (m : Members) × (to_map (expected full_config) ≡ ok m) × HoldsConfig (expected full_config) m
to_map-HoldsConfig_example = to_map-HoldsConfig (expected full_config)

abbrev values : Result Members
values = compute_calico_chart_values all_images tt network (some full_config) true "1.20.0" true

values_ok : (m : Members) × (values ≡ ok m)
unfolding compute_calico_chart_values generate_chart_values to_map image_values find_image
values_ok = (_, refl)

compute_calico_chart_values-IsChart_example :
    (c : CalicoConfig) × (generate_chart_values (some full_config) ≡ ok c)
    × IsChart all_images tt network true "1.20.0" true c values_ok.0
compute_calico_chart_values-IsChart_example =
    compute_calico_chart_values-IsChart all_images tt network true "1.20.0" true (some full_config)
      {m = values_ok.0} values_ok.1

-- A configuration that is not supported, with the message behind its prefix.
refused_values_lem :
    compute_calico_chart_values all_images tt network (some refused_config) true "1.20.0" true
    ≡ err (errorf "error when generating calico config: unsupported value for backend: ipsec")
unfolding compute_calico_chart_values generate_chart_values
refused_values_lem = refl

compute_calico_chart_values-err_example :
    (cause : Error) × (generate_chart_values (some refused_config) ≡ err cause)
    × (errorf "error when generating calico config: unsupported value for backend: ipsec"
        ≡ errorf ("error when generating calico config" <> ": " <> cause.message))
compute_calico_chart_values-err_example =
    compute_calico_chart_values-err all_images tt network true "1.20.0" true (some refused_config)
      {e = errorf "error when generating calico config: unsupported value for backend: ipsec"}
      refused_values_lem

Every-IsFound : Every (IsFound all_images tt "1.20.0") image_names
unfolding find_image
Every-IsFound =
    ((_, refl), ((_, refl), ((_, refl), ((_, refl), ((_, refl), ((_, refl), ((_, refl), tt)))))))

compute_calico_chart_values-listed_example :
    (m : Members) × (values ≡ ok m)
    × (go_map m
        ≡ go_map (
            listed_values all_images tt "1.20.0" network true true Every-IsFound
              (expected full_config)))
compute_calico_chart_values-listed_example =
    compute_calico_chart_values-listed all_images tt "1.20.0" network (some full_config) true true
      {c = expected full_config} full_config_lem Every-IsFound

generate_chart_values-untyped_ipam_example :
    generate_chart_values (
      some
        (record full_config { ipam = some (record { ipam_type = ""; cidr = some "10.0.0.0/8" }) }))
    ≡ generate_chart_values (some (record full_config { ipam = none }))
generate_chart_values-untyped_ipam_example =
    generate_chart_values-untyped_ipam full_config (some "10.0.0.0/8")

-- A shoot that is recent enough, and sprig's function by the texts that it is given.
abbrev functions : Functions
functions = record { upper = λ s. if s == "vxlan" then "VXLAN" else "IPIP"; is_recent = true }

-- The pool by its name, behind the one that is set to `Never` for recent shoots.
vxlan_lem :
    environment_texts functions network true (expected full_config)
    ≡ "USE_POD_CIDR" ∷ "true" ∷ "FELIX_PROMETHEUSMETRICSENABLED" ∷ "true"
      ∷ "FELIX_PROMETHEUSMETRICSPORT" ∷ "9091" ∷ "IP_AUTODETECTION_METHOD" ∷ "interface=eth0"
      ∷ "CALICO_IPV4POOL_VXLAN" ∷ "Never" ∷ "FELIX_VXLANMTU" ∷ "FELIX_WIREGUARDMTU"
      ∷ "CALICO_IPV4POOL_CIDR" ∷ "100.96.0.0/11" ∷ "FELIX_IPINIPENABLED" ∷ "true"
      ∷ "CALICO_IPV4POOL_" ∷ "VXLAN" ∷ "CrossSubnet" ∷ []
vxlan_lem = refl

compute_calico_chart_values-filled_example :
    (m : Members) × (image : String) × (values ≡ ok m)
    × (find_image all_images tt node_image_name "1.20.0" ≡ ok image)
    × (fill functions configmap_calico_config (go_map m)
        ≡ ok (configmap_texts functions (expected full_config)))
    × (fill functions calico_node_image_and_ports (go_map m)
        ≡ ok (image_and_ports_texts functions image (expected full_config)))
    × (fill functions calico_node_environment (go_map m)
        ≡ ok (environment_texts functions network true (expected full_config)))
    × (fill functions calico_node_probes (go_map m) ≡ ok (probes_texts (expected full_config)))
    × (all_given values_yaml_keys m ≡ true)
compute_calico_chart_values-filled_example =
    compute_calico_chart_values-filled all_images tt "1.20.0" functions network (some full_config)
      true true {c = expected full_config} full_config_lem Every-IsFound

-- An empty CIDR is accepted, and the config map then names no subnet.
empty_cidr_lem :
    (generate_chart_values (
        some (record full_config {
          ipam = some (record { ipam_type = "host-local"; cidr = some "" });
        }))
      ≡ ok (record (expected full_config) {
        ipam = record { ipam_type = "host-local"; subnet = "" };
      }))
    × (configmap_texts functions (record (expected full_config) {
      ipam = record { ipam_type = "host-local"; subnet = "" };
    })
        ≡ "none" ∷ "vxlan" ∷ "1430" ∷ "/var/log/calico/cni/cni.log" ∷ "host-local" ∷ [])
unfolding generate_chart_values
empty_cidr_lem = (refl, refl)
