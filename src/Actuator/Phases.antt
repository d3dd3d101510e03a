-- ===== src/Actuator/Phases.antt =====
-- What the actuator promises, without the calls: each namespace has a phase, and every operation sets
-- the phase of its own.
pub mod Refined
use gardener_extension_netwo.Prelude.{
  ◌≡◌, ℕ, String, Bool, true, false, Option, none, some, List, [], ◌∷◌, ◌==◌, if◌then◌else◌,
}
use gardener_extension_netwo.Prelude.Result.{Result, ok, err, panic}
use gardener_extension_netwo.Calico.{monitoring_name}
use gardener_extension_netwo.Gardener.{Bytes, Network, Cluster}
use gardener_extension_netwo.Api.Types.{NetworkConfig}
use gardener_extension_netwo.Charts.Render.{calico_config_key}
use gardener_extension_netwo.Actuator.Seed.View.{Managed, View}
use gardener_extension_netwo.Actuator.Environment.{Environment}
use gardener_extension_netwo.Actuator.Reconcile.{calico_config_secret_name, render}
use gardener_extension_netwo.Actuator.Attempts.{
  Operation, reconciles, deletes, migrates, restores, operate,
}

-- `untouched` promises nothing.
pub data Phase : Type 0 where
  untouched absent : Phase
  installed : Bytes → Phase

abbrev pub Refers : Option Managed → List String → Type 0
Refers none refs = ⊥
Refers (some m) refs = m.secret_refs ≡ refs

-- What a seed holds in a namespace of this phase.
abbrev pub Holds : String → Phase → View → Type 0
Holds n untouched v = Unit
Holds n absent v =
    (v.secrets n calico_config_secret_name ≡ none)
    × (v.managed_resources n calico_config_secret_name ≡ none)
    × (v.chart_objects n "ConfigMap" monitoring_name ≡ false)
Holds n (installed calico_chart) v =
    (v.secrets n calico_config_secret_name ≡ some ((calico_config_key, calico_chart) ∷ []))
    × Refers (v.managed_resources n calico_config_secret_name) (calico_config_secret_name ∷ [])
    × (v.chart_objects n "ConfigMap" monitoring_name ≡ true)

abbrev pub Phases : Type 0
Phases = String → Phase

abbrev pub set_phase : Phases → String → Phase → Phases
set_phase phases namespace p n = if n == namespace then p else phases n

abbrev pub installed_by : Result (Option NetworkConfig × Bytes) → Phase
installed_by (ok (config, calico_chart)) = installed calico_chart
installed_by (err e) = untouched
installed_by (panic e) = untouched

-- The phase after an operation that ends well.
abbrev pub phase_after : (E : Environment) → Operation → Network → Cluster → E.seed.State → Phase
phase_after E reconciles network cluster s = installed_by (render E network cluster s).0
phase_after E restores network cluster s = installed_by (render E network cluster s).0
phase_after E deletes network cluster s = absent
phase_after E migrates network cluster s = absent

-- Operations that end well, one after the other, on `Network`s of any namespaces, and the phases that
-- they set.
pub data History (E : Environment) (start : Phases) (s : E.seed.State)
    : Phases → E.seed.State → Type 0 where
  begun : History E start s start s
  operated :
      (op : Operation) (network : Network) (cluster : Cluster) {phases : Phases}
      {t u : E.seed.State}
      → History E start s phases t
      → operate E op network cluster t ≡ (ok tt, u)
      → History E start s
          (set_phase phases network.namespace (phase_after E op network cluster t))
          u
