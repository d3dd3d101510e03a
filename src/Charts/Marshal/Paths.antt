-- ===== src/Charts/Marshal/Paths.antt =====
-- Where `toMap` puts each field.
use gardener_extension_netwo.Prelude.{◌≡◌, refl, String, Option, none, some, [], ◌∷◌}
use gardener_extension_netwo.Prelude.Result.{ok}
use gardener_extension_netwo.Json.{Value, Members, boolean, text, object, optional_text, at_path}
use gardener_extension_netwo.Json.Documents.{print}
use gardener_extension_netwo.Json.Lexer.{spell_all}
use gardener_extension_netwo.Json.Lexer.Spelled.{lex-spell_all}
use gardener_extension_netwo.Json.Documents.RoundTrip.{as_map, parse-print}
use gardener_extension_netwo.Charts.Config.{CalicoConfig}
use gardener_extension_netwo.Charts.Marshal.{to_map, config_members, marshal, unmarshal, as_members}

-- The map has the configuration's values, at the paths that the templates of the chart read.
pub record HoldsConfig (c : CalicoConfig) (m : Members) : Type 0 where
  pub backend : at_path ("backend" ∷ []) (object m) ≡ some (text c.backend)
  pub ipinip :
      at_path ("felix" ∷ "ipinip" ∷ "enabled" ∷ []) (object m)
      ≡ some (boolean c.felix.ipinip.enabled)
  pub pool : at_path ("ipv4" ∷ "pool" ∷ []) (object m) ≡ some (text c.ipv4.pool)
  pub mode : at_path ("ipv4" ∷ "mode" ∷ []) (object m) ≡ some (text c.ipv4.mode)
  pub auto_detection_method :
      at_path ("ipv4" ∷ "autoDetectionMethod" ∷ []) (object m)
      ≡ some (optional_text c.ipv4.auto_detection_method)
  pub ipam_type : at_path ("ipam" ∷ "type" ∷ []) (object m) ≡ some (text c.ipam.ipam_type)
  pub subnet : at_path ("ipam" ∷ "subnet" ∷ []) (object m) ≡ some (text c.ipam.subnet)
  pub typha : at_path ("typha" ∷ "enabled" ∷ []) (object m) ≡ some (boolean c.typha.enabled)
  pub kube_controllers :
      at_path ("kubeControllers" ∷ "enabled" ∷ []) (object m)
      ≡ some (boolean c.kube_controllers.enabled)
  pub veth_mtu : at_path ("veth_mtu" ∷ []) (object m) ≡ some (text c.veth_mtu)
  pub monitoring :
      at_path ("monitoring" ∷ "enabled" ∷ []) (object m) ≡ some (boolean c.monitoring.enabled)
  pub typha_metrics_port :
      at_path ("monitoring" ∷ "typhaMetricsPort" ∷ []) (object m)
      ≡ some (text c.monitoring.typha_metrics_port)
  pub felix_metrics_port :
      at_path ("monitoring" ∷ "felixMetricsPort" ∷ []) (object m)
      ≡ some (text c.monitoring.felix_metrics_port)

as_map-optional_text : (o : Option String) → as_map (optional_text o) ≡ optional_text o
unfolding as_map
as_map-optional_text none = refl
as_map-optional_text (some s) = refl

-- No two members of an object in the configuration have one key.
as_map-config_members :
    (c : CalicoConfig) → as_map (object (config_members c)) ≡ object (config_members c)
unfolding as_map config_members
as_map-config_members c = rw (as_map-optional_text c.ipv4.auto_detection_method) refl

unmarshal-spell_all : (v : Value) → unmarshal (spell_all (print v [])) ≡ as_members (as_map v)
unfolding unmarshal
unmarshal-spell_all v = rw (lex-spell_all (print v []), parse-print v) refl

pub to_map-config_members : (c : CalicoConfig) → to_map c ≡ ok (config_members c)
unfolding to_map marshal as_members
to_map-config_members c =
    rw (unmarshal-spell_all (object (config_members c)), as_map-config_members c) refl

-- `toMap` returns, and its map holds every field under the path of its struct tags.
pub to_map-HoldsConfig : (c : CalicoConfig) → (m : Members) × (to_map c ≡ ok m) × HoldsConfig c m
unfolding config_members
to_map-HoldsConfig c = (
  config_members c,
  to_map-config_members c,
  record {
    backend = refl;
    ipinip = refl;
    pool = refl;
    mode = refl;
    auto_detection_method = refl;
    ipam_type = refl;
    subnet = refl;
    typha = refl;
    kube_controllers = refl;
    veth_mtu = refl;
    monitoring = refl;
    typha_metrics_port = refl;
    felix_metrics_port = refl;
  },
)
