-- ===== src/Api/DeepCopy.antt =====
-- pkg/apis/calico/v1alpha1/zz_generated.deepcopy.go. `DeepCopyInto` is given the struct `*in` and
-- returns what it leaves in `*out`; its caller has allocated `out` before and stores the struct
-- behind.
pub mod Fresh
pub mod Size
use gardener_extension_netwo.Prelude.{String, Bool, false, Option, none, some}
use gardener_extension_netwo.Api.Types.{TypeMeta}
use gardener_extension_netwo.Api.Memory.{
  Ptr, IpamStruct, Ipv4Struct, TyphaStruct, NetworkConfigStruct, NetworkStatusStruct, Cell, text,
  ipam, ipv4, typha, network_config, network_status, Cmd, pure, copy_field, ◌>>=◌, ◌>>◌, new, store,
  text_in, ipam_in, ipv4_in, typha_in, network_config_in, network_status_in, load,
}

-- The zero values of the structs.
abbrev pub zero_ipam : IpamStruct
zero_ipam = record { ipam_type = ""; cidr = none }

abbrev pub zero_ipv4 : Ipv4Struct
zero_ipv4 = record { pool = none; mode = none; auto_detection_method = none }

abbrev pub zero_typha : TyphaStruct
zero_typha = record { enabled = false }

abbrev pub zero_type_meta : TypeMeta
zero_type_meta = record { kind = ""; api_version = "" }

abbrev pub zero_network_config : NetworkConfigStruct
zero_network_config = record {
  type_meta = zero_type_meta;
  backend = none;
  ipam = none;
  ipv4 = none;
  typha = none;
  veth_mtu = none;
  ipip = none;
  ip_auto_detection_method = none;
}

abbrev pub zero_network_status : NetworkStatusStruct
zero_network_status = record { type_meta = zero_type_meta }

-- `**out = **in` at a string type.
unfoldable pub copy_text : Ptr → Ptr → Cmd (Unit {0})
copy_text p q = do s ← load text_in p; store q (text s)

unfoldable pub ipam_deep_copy_into : IpamStruct → Cmd IpamStruct
unfolding copy_text
ipam_deep_copy_into s = do
  cidr ← copy_field (text "") copy_text s.cidr
  pure (record s { cidr = cidr })

-- `(*in).DeepCopyInto(*out)` at the pointers.
unfoldable pub copy_ipam : Ptr → Ptr → Cmd (Unit {0})
copy_ipam p q = do s ← load ipam_in p; out ← ipam_deep_copy_into s; store q (ipam out)

-- A nil receiver has a nil copy.
unfoldable pub ipam_deep_copy : Option Ptr → Cmd (Option Ptr)
ipam_deep_copy = copy_field (ipam zero_ipam) copy_ipam

unfoldable pub ipv4_deep_copy_into : Ipv4Struct → Cmd Ipv4Struct
unfolding copy_text
ipv4_deep_copy_into s = do
  pool ← copy_field (text "") copy_text s.pool
  mode ← copy_field (text "") copy_text s.mode
  method ← copy_field (text "") copy_text s.auto_detection_method
  pure (record { pool = pool; mode = mode; auto_detection_method = method })

unfoldable pub copy_ipv4 : Ptr → Ptr → Cmd (Unit {0})
copy_ipv4 p q = do s ← load ipv4_in p; out ← ipv4_deep_copy_into s; store q (ipv4 out)

unfoldable pub ipv4_deep_copy : Option Ptr → Cmd (Option Ptr)
ipv4_deep_copy = copy_field (ipv4 zero_ipv4) copy_ipv4

-- `**out = **in` at `Typha`, which holds no pointer.
unfoldable pub copy_typha : Ptr → Ptr → Cmd (Unit {0})
copy_typha p q = do s ← load typha_in p; store q (typha s)

unfoldable pub typha_deep_copy : Option Ptr → Cmd (Option Ptr)
typha_deep_copy = copy_field (typha zero_typha) copy_typha

unfoldable pub network_config_deep_copy_into : NetworkConfigStruct → Cmd NetworkConfigStruct
network_config_deep_copy_into s = do
  backend ← copy_field (text "") copy_text s.backend
  ipam_out ← copy_field (ipam zero_ipam) copy_ipam s.ipam
  ipv4_out ← copy_field (ipv4 zero_ipv4) copy_ipv4 s.ipv4
  typha_out ← copy_field (typha zero_typha) copy_typha s.typha
  veth_mtu ← copy_field (text "") copy_text s.veth_mtu
  ipip ← copy_field (text "") copy_text s.ipip
  method ← copy_field (text "") copy_text s.ip_auto_detection_method
  pure (record {
    type_meta = s.type_meta;
    backend = backend;
    ipam = ipam_out;
    ipv4 = ipv4_out;
    typha = typha_out;
    veth_mtu = veth_mtu;
    ipip = ipip;
    ip_auto_detection_method = method;
  })

unfoldable pub copy_network_config : Ptr → Ptr → Cmd (Unit {0})
copy_network_config p q = do
  s ← load network_config_in p
  out ← network_config_deep_copy_into s
  store q (network_config out)

unfoldable pub network_config_deep_copy : Option Ptr → Cmd (Option Ptr)
network_config_deep_copy = copy_field (network_config zero_network_config) copy_network_config

unfoldable pub copy_network_status : Ptr → Ptr → Cmd (Unit {0})
copy_network_status p q = do s ← load network_status_in p; store q (network_status s)

unfoldable pub network_status_deep_copy : Option Ptr → Cmd (Option Ptr)
network_status_deep_copy = copy_field (network_status zero_network_status) copy_network_status

-- A nil copy becomes a nil interface; an interface that is not nil holds the pointer.
unfoldable pub network_config_deep_copy_object : Option Ptr → Cmd (Option Ptr)
network_config_deep_copy_object p = do c ← network_config_deep_copy p; pure c

unfoldable pub network_status_deep_copy_object : Option Ptr → Cmd (Option Ptr)
network_status_deep_copy_object p = do c ← network_status_deep_copy p; pure c
