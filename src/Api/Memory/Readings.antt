-- ===== src/Api/Memory/Readings.antt =====
-- The values of Api.Types that the structs in a memory stand for.
use gardener_extension_netwo.Prelude.{
  ◌≡◌, ap, ◌∙◌, String, Option, some, arith, and_then, and_then-eq-some, some-injective,
}
use gardener_extension_netwo.Api.Types
use gardener_extension_netwo.Api.Types.{NetworkConfig, NetworkStatus}
use gardener_extension_netwo.Api.Memory.{
  IpamStruct, Ipv4Struct, TyphaStruct, NetworkConfigStruct, NetworkStatusStruct, Memory, text_in,
  ipam_in, ipv4_in, typha_in,
}
use gardener_extension_netwo.Store.Stable.{Stable, field-Stable}
use gardener_extension_netwo.Store.Copies.{optional, through}

abbrev pub read_string : String → Memory → Option String
read_string s m = some s

abbrev pub read_ipam : IpamStruct → Memory → Option Types.Ipam
read_ipam s m =
    and_then (optional (through text_in read_string) s.cidr m)
      λ cidr. some (record { ipam_type = s.ipam_type; cidr = cidr })

abbrev pub read_ipv4 : Ipv4Struct → Memory → Option Types.Ipv4
read_ipv4 s m = and_then (optional (through text_in read_string) s.pool m) λ pool.
    and_then (optional (through text_in read_string) s.mode m) λ mode.
      and_then (optional (through text_in read_string) s.auto_detection_method m)
        λ method. some (record { pool = pool; mode = mode; auto_detection_method = method })

abbrev pub read_typha : TyphaStruct → Memory → Option Types.Typha
read_typha s m = some (record { enabled = s.enabled })

abbrev pub read_network_config : NetworkConfigStruct → Memory → Option NetworkConfig
read_network_config s m = and_then (optional (through text_in read_string) s.backend m) λ backend.
    and_then (optional (through ipam_in read_ipam) s.ipam m) λ ipam.
      and_then (optional (through ipv4_in read_ipv4) s.ipv4 m) λ ipv4.
        and_then (optional (through typha_in read_typha) s.typha m) λ typha.
          and_then (optional (through text_in read_string) s.veth_mtu m) λ veth_mtu.
            and_then (optional (through text_in read_string) s.ipip m) λ ipip.
              and_then (optional (through text_in read_string) s.ip_auto_detection_method m)
                λ method. some (record {
                  type_meta = s.type_meta;
                  backend = backend;
                  ipam = ipam;
                  ipv4 = ipv4;
                  typha = typha;
                  veth_mtu = veth_mtu;
                  ipip = ipip;
                  ip_auto_detection_method = method;
                })

abbrev pub read_network_status : NetworkStatusStruct → Memory → Option NetworkStatus
read_network_status s m = some (record { type_meta = s.type_meta })

-- What a struct's reading says of the readings of its fields.
pub read_ipam-eq-some :
    (s : IpamStruct) (m : Memory) {v : Types.Ipam}
    → read_ipam s m ≡ some v
    → (s.ipam_type ≡ v.ipam_type) × (optional (through text_in read_string) s.cidr m ≡ some v.cidr)
read_ipam-eq-some s m h =
    let (cidr, e, h) = and_then-eq-some (optional (through text_in read_string) s.cidr m) _ h in
    ground arith

pub read_ipv4-eq-some :
    (s : Ipv4Struct) (m : Memory) {v : Types.Ipv4}
    → read_ipv4 s m ≡ some v
    → (optional (through text_in read_string) s.pool m ≡ some v.pool)
      × (optional (through text_in read_string) s.mode m ≡ some v.mode)
      × (optional (through text_in read_string) s.auto_detection_method m
          ≡ some v.auto_detection_method)
read_ipv4-eq-some s m h =
    let (pool, e, h) = and_then-eq-some (optional (through text_in read_string) s.pool m) _ h in
    let (mode, f, h) = and_then-eq-some (optional (through text_in read_string) s.mode m) _ h in
    let (method, g, h) =
      and_then-eq-some (optional (through text_in read_string) s.auto_detection_method m) _ h in
    ground arith

pub read_network_config-eq-some :
    (s : NetworkConfigStruct) (m : Memory) {v : NetworkConfig}
    → read_network_config s m ≡ some v
    → (s.type_meta ≡ v.type_meta)
      × (optional (through text_in read_string) s.backend m ≡ some v.backend)
      × (optional (through ipam_in read_ipam) s.ipam m ≡ some v.ipam)
      × (optional (through ipv4_in read_ipv4) s.ipv4 m ≡ some v.ipv4)
      × (optional (through typha_in read_typha) s.typha m ≡ some v.typha)
      × (optional (through text_in read_string) s.veth_mtu m ≡ some v.veth_mtu)
      × (optional (through text_in read_string) s.ipip m ≡ some v.ipip)
      × (optional (through text_in read_string) s.ip_auto_detection_method m
          ≡ some v.ip_auto_detection_method)
read_network_config-eq-some s m h =
    let (backend, e₁, h) =
      and_then-eq-some (optional (through text_in read_string) s.backend m) _ h in
    let (ipam, e₂, h) = and_then-eq-some (optional (through ipam_in read_ipam) s.ipam m) _ h in
    let (ipv4, e₃, h) = and_then-eq-some (optional (through ipv4_in read_ipv4) s.ipv4 m) _ h in
    let (typha, e₄, h) = and_then-eq-some (optional (through typha_in read_typha) s.typha m) _ h in
    let (mtu, e₅, h) = and_then-eq-some (optional (through text_in read_string) s.veth_mtu m) _ h in
    let (ipip, e₆, h) = and_then-eq-some (optional (through text_in read_string) s.ipip m) _ h in
    let (method, e₇, h) =
      and_then-eq-some (optional (through text_in read_string) s.ip_auto_detection_method m) _ h in
    let q = some-injective h in
    (
      ap (λ x. x.type_meta) q,
      e₁ ∙ ap (λ x. some x.backend) q,
      e₂ ∙ ap (λ x. some x.ipam) q,
      e₃ ∙ ap (λ x. some x.ipv4) q,
      e₄ ∙ ap (λ x. some x.typha) q,
      e₅ ∙ ap (λ x. some x.veth_mtu) q,
      e₆ ∙ ap (λ x. some x.ipip) q,
      e₇ ∙ ap (λ x. some x.ip_auto_detection_method) q,
    )

-- And the other way round.
pub read_network_config-some :
    (s : NetworkConfigStruct) (m : Memory) (v : NetworkConfig)
    → s.type_meta ≡ v.type_meta
    → optional (through text_in read_string) s.backend m ≡ some v.backend
    → optional (through ipam_in read_ipam) s.ipam m ≡ some v.ipam
    → optional (through ipv4_in read_ipv4) s.ipv4 m ≡ some v.ipv4
    → optional (through typha_in read_typha) s.typha m ≡ some v.typha
    → optional (through text_in read_string) s.veth_mtu m ≡ some v.veth_mtu
    → optional (through text_in read_string) s.ipip m ≡ some v.ipip
    → optional (through text_in read_string) s.ip_auto_detection_method m
      ≡ some v.ip_auto_detection_method
    → read_network_config s m ≡ some v
read_network_config-some s m v t a b c d e f g = rw (a, b, c, d, e, f, g, t)

pub read_string-Stable : Stable read_string
read_string-Stable s m v h = λ o agree. h

pub read_ipam-Stable : Stable read_ipam
read_ipam-Stable s m v h = λ o agree.
    let (cidr, e, h) = and_then-eq-some (optional (through text_in read_string) s.cidr m) _ h in
    let e = field-Stable text_in read_string read_string-Stable s.cidr m cidr e o agree in rw e h

pub read_ipv4-Stable : Stable read_ipv4
read_ipv4-Stable s m v h = λ o agree.
    let text = field-Stable text_in read_string read_string-Stable in
    let (e, f, g) = read_ipv4-eq-some s m h in
    rw (text _ m _ e o agree, text _ m _ f o agree, text _ m _ g o agree)

pub read_typha-Stable : Stable read_typha
read_typha-Stable s m v h = λ o agree. h

pub read_network_config-Stable : Stable read_network_config
read_network_config-Stable s m v h = λ o agree.
    let text = field-Stable text_in read_string read_string-Stable in
    let (t, a, b, c, d, e, f, g) = read_network_config-eq-some s m h in
    read_network_config-some s o v t (text s.backend m v.backend a o agree)
      (field-Stable ipam_in read_ipam read_ipam-Stable s.ipam m v.ipam b o agree)
      (field-Stable ipv4_in read_ipv4 read_ipv4-Stable s.ipv4 m v.ipv4 c o agree)
      (field-Stable typha_in read_typha read_typha-Stable s.typha m v.typha d o agree)
      (text s.veth_mtu m v.veth_mtu e o agree) (text s.ipip m v.ipip f o agree)
      (text s.ip_auto_detection_method m v.ip_auto_detection_method g o agree)
