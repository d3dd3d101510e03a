-- ===== src/Charts/Marshal.antt =====
-- `toMap` of pkg/charts/utils.go: the chart configuration as JSON, under the names of its struct
-- tags, read back as a map.
pub mod Listed
pub mod Paths
use gardener_extension_netwo.Prelude.Result.{Result, ok, err, errorf, ◌>>=◌, with_prefix}
use gardener_extension_netwo.Prelude.{ℕ, List, []}
use gardener_extension_netwo.Json.Documents.{print, parse}
use gardener_extension_netwo.Json.Lexer.{spell_all, lex, between}
use gardener_extension_netwo.Json.{
  Value, null, boolean, text, object, Members, end, member, optional_text,
}
use gardener_extension_netwo.Charts.Config.{
  CalicoConfig, Felix, FelixIpinip, Ipv4Values, IpamValues, KubeControllers, Monitoring,
  TyphaValues,
}

pub felix_ipinip_value : FelixIpinip → Value
felix_ipinip_value f = object (member "enabled" (boolean f.enabled) end)

pub felix_value : Felix → Value
felix_value f = object (member "ipinip" (felix_ipinip_value f.ipinip) end)

pub ipv4_value : Ipv4Values → Value
ipv4_value v = object (
    member "pool" (text v.pool) (
      member "mode" (text v.mode)
        (member "autoDetectionMethod" (optional_text v.auto_detection_method) end)))

pub ipam_value : IpamValues → Value
ipam_value i = object (member "type" (text i.ipam_type) (member "subnet" (text i.subnet) end))

pub kube_controllers_value : KubeControllers → Value
kube_controllers_value k = object (member "enabled" (boolean k.enabled) end)

pub monitoring_value : Monitoring → Value
monitoring_value m = object (
    member "enabled" (boolean m.enabled) (
      member "typhaMetricsPort" (text m.typha_metrics_port)
        (member "felixMetricsPort" (text m.felix_metrics_port) end)))

pub typha_value : TyphaValues → Value
typha_value t = object (member "enabled" (boolean t.enabled) end)

-- The fields in the order of the struct.
pub config_members : CalicoConfig → Members
unfolding felix_ipinip_value felix_value ipv4_value ipam_value kube_controllers_value
    monitoring_value typha_value
config_members c = member "backend" (text c.backend) (
    member "felix" (felix_value c.felix) (
      member "ipv4" (ipv4_value c.ipv4) (
        member "ipam" (ipam_value c.ipam) (
          member "typha" (typha_value c.typha) (
            member "kubeControllers" (kube_controllers_value c.kube_controllers) (
              member "veth_mtu" (text c.veth_mtu)
                (member "monitoring" (monitoring_value c.monitoring) end)))))))

-- `json.Marshal`. A struct of texts, Booleans and pointers to texts has no value that it refuses.
unfoldable pub marshal : CalicoConfig → Result (List ℕ)
unfolding config_members print spell_all
marshal c = ok (spell_all (print (object (config_members c)) []))

-- The value of a document, as a `map[string]interface{}`.
unfoldable pub as_members : Value → Result Members
as_members null = ok end
as_members (object m) = ok m
as_members (boolean b) =
    err (errorf "json: cannot unmarshal bool into Go value of type map[string]interface {}")
as_members (text s) =
    err (errorf "json: cannot unmarshal string into Go value of type map[string]interface {}")

-- `json.Unmarshal` into such a map.
unfoldable pub unmarshal : List ℕ → Result Members
unfolding as_members parse lex
unmarshal bytes = do tokens ← lex between bytes; value ← parse tokens; as_members value

unfoldable pub to_map : CalicoConfig → Result Members
unfolding marshal unmarshal
to_map c = do
  bytes ← with_prefix "could not marshal calico config" (marshal c)
  with_prefix "could not unmarshal calico config" (unmarshal bytes)
