-- ===== src/Api/Internal/Memory/Readings.antt =====
-- The values of Api.Internal.Types that the structs stand for, and what they have to do with those of
-- version v1alpha1.
use mathlib.Core.Option
use gardener_extension_netwo.Prelude.{
  ◌≡◌, refl, ap, ◌∙◌, Option, none, some, and_then, and_then-map,
}
use gardener_extension_netwo.Store.Copies.{optional, through}
use gardener_extension_netwo.Store.Casts.{optional-cast}
use gardener_extension_netwo.Api.Types.{
  Ipam as V1alpha1Ipam, Ipv4 as V1alpha1Ipv4, Typha as V1alpha1Typha, TypeMeta,
  NetworkConfig as V1alpha1NetworkConfig, NetworkStatus as V1alpha1NetworkStatus,
}
use gardener_extension_netwo.Api.Memory
use gardener_extension_netwo.Api.Memory.{
  Ptr, Cell, ipam, ipv4, typha, network_config, network_status, text, Memory, text_in,
}
use gardener_extension_netwo.Api.Memory.Readings
use gardener_extension_netwo.Api.Memory.Readings.{read_string}
use gardener_extension_netwo.Api.Internal.Types
use gardener_extension_netwo.Api.Internal.Types.{NetworkConfig, NetworkStatus}
use gardener_extension_netwo.Api.Internal.Memory.{
  IpamStruct, Ipv4Struct, TyphaStruct, NetworkConfigStruct, NetworkStatusStruct, ipam_in, ipv4_in,
  typha_in, network_config_in, network_status_in, internal_network_status, internal_ipam,
  internal_ipv4, internal_typha, internal_network_config,
}

abbrev pub read_ipam : IpamStruct → Memory → Option Types.Ipam
read_ipam s m =
    and_then (optional (through text_in read_string) s.cidr m)
      λ cidr. some (record { ipam_type = s.ipam_type; cidr = cidr })

abbrev pub read_ipv4 : Ipv4Struct → Memory → Option Types.Ipv4
read_ipv4 s m = and_then (optional (through text_in read_string) s.pool m) λ pool.
    and_then (optional (through text_in read_string) s.mode m) λ mode.
      and_then (optional (through text_in read_string) s.auto_detection_method m)
        λ method. some (record { pool = pool; mode = mode; auto_detection_method = method })

abbrev pub read_typha : TyphaStruct → Memory → Option Types.Typha
read_typha s m = some (record { enabled = s.enabled })

abbrev pub read_network_config : NetworkConfigStruct → Memory → Option NetworkConfig
read_network_config s m = and_then (optional (through text_in read_string) s.backend m) λ backend.
    and_then (optional (through ipam_in read_ipam) s.ipam m) λ ipam.
      and_then (optional (through ipv4_in read_ipv4) s.ipv4 m) λ ipv4.
        and_then (optional (through typha_in read_typha) s.typha m) λ typha.
          and_then (optional (through text_in read_string) s.veth_mtu m) λ veth_mtu.
            and_then (optional (through text_in read_string) s.ipip m) λ ipip.
              and_then (optional (through text_in read_string) s.ip_auto_detection_method m)
                λ method. some (record {
                  type_meta = s.type_meta;
                  backend = backend;
                  ipam = ipam;
                  ipv4 = ipv4;
                  typha = typha;
                  veth_mtu = veth_mtu;
                  ipip = ipip;
                  ip_auto_detection_method = method;
                })

abbrev pub read_network_status : NetworkStatusStruct → Memory → Option NetworkStatus
read_network_status s m = some (record { type_meta = s.type_meta })

-- The value of version v1alpha1 at the internal types.
abbrev pub ipam_value : V1alpha1Ipam → Types.Ipam
ipam_value v = record { ipam_type = v.ipam_type; cidr = v.cidr }

abbrev pub ipv4_value : V1alpha1Ipv4 → Types.Ipv4
ipv4_value v = record {
  pool = v.pool;
  mode = v.mode;
  auto_detection_method = v.auto_detection_method;
}

abbrev pub typha_value : V1alpha1Typha → Types.Typha
typha_value v = record { enabled = v.enabled }

-- A type meta is given, which no conversion carries over.
abbrev pub network_config_value : TypeMeta → V1alpha1NetworkConfig → NetworkConfig
network_config_value meta v = record {
  type_meta = meta;
  backend = v.backend;
  ipam = Option.map ipam_value v.ipam;
  ipv4 = Option.map ipv4_value v.ipv4;
  typha = Option.map typha_value v.typha;
  veth_mtu = v.veth_mtu;
  ipip = v.ipip;
  ip_auto_detection_method = v.ip_auto_detection_method;
}

abbrev pub network_status_value : V1alpha1NetworkStatus → NetworkStatus
network_status_value v = record { type_meta = v.type_meta }

read_ipam-internal :
    (s : Memory.IpamStruct) (m : Memory)
    → read_ipam (internal_ipam s) m ≡ Option.map ipam_value (Readings.read_ipam s m)
read_ipam-internal s m =
    and_then-map ipam_value (optional (through text_in read_string) s.cidr m) _ _ λ cidr. refl

read_ipv4-internal :
    (s : Memory.Ipv4Struct) (m : Memory)
    → read_ipv4 (internal_ipv4 s) m ≡ Option.map ipv4_value (Readings.read_ipv4 s m)
read_ipv4-internal s m =
    let text = optional (through text_in read_string) in
    and_then-map ipv4_value (text s.pool m) _ _ λ pool.
      and_then-map ipv4_value (text s.mode m) _ _
        λ mode. and_then-map ipv4_value (text s.auto_detection_method m) _ _ λ method. refl

-- What follows a field that was cast.
and_then-cast :
    {V V' W W' : Type 0} (f : V → V') (g : W → W') (o : Option V) {o' : Option V'}
    (h : V → Option W) (h' : V' → Option W')
    → o' ≡ Option.map f o
    → ((v : V) → h' (f v) ≡ Option.map g (h v))
    → and_then o' h' ≡ Option.map g (and_then o h)
and_then-cast f g none h h' e k = ap (λ x. and_then x h') e
and_then-cast f g (some v) h h' e k = ap (λ x. and_then x h') e ∙ k v

-- A cell at the type of this package holds the bits that it holds at the type of version v1alpha1.
pub ipam_in-internal : (c : Cell) → ipam_in c ≡ Option.map internal_ipam (Memory.ipam_in c)
ipam_in-internal (ipam s) = refl
ipam_in-internal (text s) = refl
ipam_in-internal (ipv4 s) = refl
ipam_in-internal (typha s) = refl
ipam_in-internal (network_config s) = refl
ipam_in-internal (network_status s) = refl

pub ipv4_in-internal : (c : Cell) → ipv4_in c ≡ Option.map internal_ipv4 (Memory.ipv4_in c)
ipv4_in-internal (ipv4 s) = refl
ipv4_in-internal (text s) = refl
ipv4_in-internal (ipam s) = refl
ipv4_in-internal (typha s) = refl
ipv4_in-internal (network_config s) = refl
ipv4_in-internal (network_status s) = refl

pub typha_in-internal : (c : Cell) → typha_in c ≡ Option.map internal_typha (Memory.typha_in c)
typha_in-internal (typha s) = refl
typha_in-internal (text s) = refl
typha_in-internal (ipam s) = refl
typha_in-internal (ipv4 s) = refl
typha_in-internal (network_config s) = refl
typha_in-internal (network_status s) = refl

pub network_config_in-internal :
    (c : Cell)
    → network_config_in c ≡ Option.map internal_network_config (Memory.network_config_in c)
network_config_in-internal (network_config s) = refl
network_config_in-internal (text s) = refl
network_config_in-internal (ipam s) = refl
network_config_in-internal (ipv4 s) = refl
network_config_in-internal (typha s) = refl
network_config_in-internal (network_status s) = refl

pub network_status_in-internal :
    (c : Cell)
    → network_status_in c ≡ Option.map internal_network_status (Memory.network_status_in c)
network_status_in-internal (network_status s) = refl
network_status_in-internal (text s) = refl
network_status_in-internal (ipam s) = refl
network_status_in-internal (ipv4 s) = refl
network_status_in-internal (typha s) = refl
network_status_in-internal (network_config s) = refl

-- A struct stands for the value of its bits at version v1alpha1, but for a type meta that is its own.
pub read_network_config-internal :
    (meta : TypeMeta → TypeMeta) (s : Memory.NetworkConfigStruct) (m : Memory)
    → read_network_config (record (internal_network_config s) { type_meta = meta s.type_meta }) m
      ≡ Option.map
          (λ v. network_config_value (meta v.type_meta) v)
          (Readings.read_network_config s m)
read_network_config-internal meta s m =
    let text = optional (through text_in read_string) in
    let value : V1alpha1NetworkConfig → NetworkConfig =
      λ v. network_config_value (meta v.type_meta) v in
    and_then-map value (text s.backend m) _ _ λ backend.
      and_then-cast (Option.map ipam_value) value
        (optional (through Memory.ipam_in Readings.read_ipam) s.ipam m) _ _
        (optional-cast Memory.ipam_in ipam_in internal_ipam ipam_in-internal Readings.read_ipam
          read_ipam ipam_value read_ipam-internal s.ipam m)
        λ ipam.
          and_then-cast (Option.map ipv4_value) value
            (optional (through Memory.ipv4_in Readings.read_ipv4) s.ipv4 m) _ _
            (optional-cast Memory.ipv4_in ipv4_in internal_ipv4 ipv4_in-internal Readings.read_ipv4
              read_ipv4 ipv4_value read_ipv4-internal s.ipv4 m)
            λ ipv4.
              and_then-cast (Option.map typha_value) value
                (optional (through Memory.typha_in Readings.read_typha) s.typha m) _ _
                (optional-cast Memory.typha_in typha_in internal_typha typha_in-internal
                  Readings.read_typha read_typha typha_value (λ s m. refl) s.typha m)
                λ typha. and_then-map value (text s.veth_mtu m) _ _ λ mtu.
                  and_then-map value (text s.ipip m) _ _ λ ipip.
                    and_then-map value (text s.ip_auto_detection_method m) _ _ λ method. refl
