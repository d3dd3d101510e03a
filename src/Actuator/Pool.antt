-- ===== src/Actuator/Pool.antt =====
-- The workers of the network controller, which run the operations of the actuator at the same time. An
-- item of the controller's queue is handed to one worker at a time; here the items are namespaces, each
-- with the one `Network` of its shoot.
pub mod Calls
pub mod Serial
pub mod Settled
use gardener_extension_netwo.Prelude.{◌≡◌, String, true, List, [], ◌∷◌, ◌==◌, if◌then◌else◌}
use gardener_extension_netwo.Prelude.Result.{Result, ok, err, panic, ◌>>=◌}
use gardener_extension_netwo.Gardener.{Bytes, Network, Cluster}
use gardener_extension_netwo.Actuator.Seed.{Call, set_keep_objects, delete_chart, Seed, Action}
use gardener_extension_netwo.Actuator.Environment.{Environment}
use gardener_extension_netwo.Actuator.Monitoring.{calico_control_plane_monitoring_chart}
use gardener_extension_netwo.Actuator.Reconcile.{calico_config_secret_name, render}
use gardener_extension_netwo.Actuator.Reconcile.Desired.{reconcile_calls}
use gardener_extension_netwo.Actuator.Delete.Gone.{delete_calls}
use gardener_extension_netwo.Actuator.Retries.{outcome}
use gardener_extension_netwo.Actuator.Attempts.{Operation, reconciles, deletes, migrates, restores}

-- What an operation computes before its first call: a deletion, nothing.
abbrev pub rendering :
    (E : Environment) → Operation → Network → Cluster → E.seed.State → Result Bytes
rendering E reconciles network cluster s =
    (render E network cluster s).0 >>= λ (config, calico_chart). ok calico_chart
rendering E restores network cluster s =
    (render E network cluster s).0 >>= λ (config, calico_chart). ok calico_chart
rendering E deletes network cluster s = ok []
rendering E migrates network cluster s = ok []

-- Its calls, in order.
abbrev pub operation_calls : Operation → Network → Bytes → List Call
operation_calls reconciles network calico_chart = reconcile_calls network calico_chart
operation_calls restores network calico_chart = reconcile_calls network calico_chart
operation_calls deletes network calico_chart =
    delete_chart calico_control_plane_monitoring_chart network.namespace ∷ delete_calls network
operation_calls migrates network calico_chart =
    set_keep_objects network.namespace calico_config_secret_name true
    ∷ delete_chart calico_control_plane_monitoring_chart network.namespace
    ∷ delete_calls network

-- A call, with the error that the code ignores.
abbrev pub attempt : (S : Seed) → Call → Action S.State (Unit {0})
attempt S c s = let (r, t) = S.perform c s in (outcome S c r, t)

-- A worker has calls left, or has ended well, or with an error.
pub data Worker : Type 0 where
  idle failed : Worker
  working : Operation → Network → Bytes → List Call → Worker
  finished : Operation → Network → Bytes → Worker

abbrev pub IsFree : Worker → Type 0
IsFree (working op network calico_chart cs) = ⊥
IsFree _ = Unit

abbrev pub after_call : Result (Unit {0}) → Operation → Network → Bytes → List Call → Worker
after_call (ok _) op network calico_chart cs = working op network calico_chart cs
after_call (err e) op network calico_chart cs = failed
after_call (panic e) op network calico_chart cs = failed

module _ (S : Seed) where
  -- The seed, and the worker of each namespace.
  pub record Pool : Type 0 where
    pub state : S.State
    pub workers : String → Worker

  abbrev pub set_worker : (String → Worker) → String → Worker → String → Worker
  set_worker workers namespace w n = if n == namespace then w else workers n

-- What happens next: a worker that is free begins an operation, makes its next call, or ends.
pub data Step (E : Environment) : Pool E.seed → Pool E.seed → Type 0 where
  begins :
      (op : Operation) (network : Network) (cluster : Cluster) {calico_chart : Bytes}
      (p : Pool E.seed)
      → IsFree (p.workers network.namespace)
      → rendering E op network cluster p.state ≡ ok calico_chart
      → Step E p (record p {
        workers =
            set_worker E.seed p.workers network.namespace
              (working op network calico_chart (operation_calls op network calico_chart));
      })
  calls :
      (n : String) (op : Operation) (network : Network) (calico_chart : Bytes) (c : Call)
      (cs : List Call) (p : Pool E.seed)
      → p.workers n ≡ working op network calico_chart (c ∷ cs)
      → Step E p (record p {
        state = (attempt E.seed c p.state).1;
        workers =
            set_worker E.seed p.workers n
              (after_call (attempt E.seed c p.state).0 op network calico_chart cs);
      })
  ends :
      (n : String) (op : Operation) (network : Network) (calico_chart : Bytes) (p : Pool E.seed)
      → p.workers n ≡ working op network calico_chart []
      → Step E p
          (record p { workers = set_worker E.seed p.workers n (finished op network calico_chart) })

pub data Reach (E : Environment) (start : Pool E.seed) : Pool E.seed → Type 0 where
  here : Reach E start start
  next : {p q : Pool E.seed} → Reach E start p → Step E p q → Reach E start q
