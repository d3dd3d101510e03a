-- ===== src/Tests/Inputs.antt =====
-- The inputs that the tests share.
use mathlib.Core.Quot
use native.Mathlib.Nat.{ℕ_set}
use gardener_extension_netwo.Prelude.{
  ◌≡◌, refl, ℕ, ◌+◌, String, Option, List, ◌<>◌, true, false, none, some, [], ◌∷◌, ◌==◌,
  if◌then◌else◌,
}
use gardener_extension_netwo.Prelude.Result.{Result, ok, err, errorf}
use gardener_extension_netwo.Gardener.{Bytes, RawExtension, Network, Shoot, Cluster}
use gardener_extension_netwo.Json.{Value, object, Members}
use gardener_extension_netwo.Json.Maps.{Agree, shape_at, GoMap}
use gardener_extension_netwo.Api.Types.{
  NetworkConfig, vxlan, backend_none, pool_vxlan, cross_subnet, never,
}
use gardener_extension_netwo.Charts.Generate.Deprecated.{empty_config}
use gardener_extension_netwo.Images.{ImageVectors}
use gardener_extension_netwo.Charts.Render.{ChartRenderers}

-- Configurations: with all fields, with the deprecated mode, and one that is not supported.
abbrev pub full_config : NetworkConfig
full_config = record empty_config {
  backend = some vxlan;
  ipam = some (record { ipam_type = "host-local"; cidr = some "10.0.0.0/8" });
  ipv4 = some (record {
    pool = some pool_vxlan;
    mode = some cross_subnet;
    auto_detection_method = some "interface=eth0";
  });
  typha = some (record { enabled = false });
  veth_mtu = some "1430";
}

abbrev pub deprecated_config : NetworkConfig
deprecated_config = record empty_config {
  backend = some backend_none;
  ipip = some never;
  ip_auto_detection_method = some "first-found";
}

abbrev pub refused_config : NetworkConfig
refused_config = record empty_config { backend = some "ipsec"; ipip = some "Sometimes" }

-- A vector with the image of every name.
abbrev pub all_images : ImageVectors
all_images = record {
  ImageVector = Unit;
  Image = String;
  read = λ s. ok tt;
  with_env_override = λ v. ok v;
  find = λ v name runtime target. ok name;
  to_string = λ name. "registry/" <> name;
}

-- How many of these keys a map has.
abbrev one_if : Option Value → ℕ
one_if none = 0
one_if (some v) = 1

abbrev count : List String → Members → ℕ
count [] m = 0
count (k ∷ ks) m = one_if (shape_at (k ∷ []) (object m)) + count ks m

abbrev count-Agree : (ks : List String) (m n : Members) → Agree m n → count ks m ≡ count ks n
count-Agree [] m n h = refl
count-Agree (k ∷ ks) m n h = rw (h (k ∷ []), count-Agree ks m n h) refl

abbrev chart_keys : List String
chart_keys = "config" ∷ "global" ∷ "images" ∷ "nodeSelector" ∷ "vpa" ∷ []

abbrev pub count_keys : GoMap → ℕ
count_keys = Quot.lift ℕ_set (count chart_keys) (count-Agree chart_keys)

-- A renderer that knows the versions of shoots that are not empty.
abbrev pub counting_renderers : ChartRenderers
counting_renderers = record {
  Renderer = String;
  Release = ℕ;
  new_for_shoot = λ version. if version == "" then err (errorf "no version") else ok version;
  render = λ renderer path release namespace values. ok (count_keys values);
  manifest = λ release. release ∷ [];
}

-- The decoder of documents of one byte.
abbrev pub decode_byte : Bytes → Result NetworkConfig
decode_byte [] = err (errorf "unexpected end of JSON input")
decode_byte (b ∷ _) = ok full_config

abbrev pub network : Network
network = record {
  namespace = "shoot--dev--a";
  name = "calico";
  pod_cidr = "100.96.0.0/11";
  service_cidr = "100.64.0.0/13";
  provider_config = some (record { raw = some (1 ∷ []) });
}

abbrev pub no_raw : RawExtension
no_raw = record { raw = none }

abbrev pub network_without_raw : Network
network_without_raw = record network { provider_config = some no_raw }

abbrev pub shoot : Shoot
shoot = record {
  nodes = some "10.250.0.0/16";
  kubernetes_version = "1.20.0";
  workers =
      record { name = "small"; system_components = some false }
      ∷ record { name = "large"; system_components = none }
      ∷ [];
  vertical_pod_autoscaler = some true;
}

abbrev pub cluster : Cluster
cluster = record { shoot = some shoot }
