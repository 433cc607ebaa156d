-- ===== src/Driver.antt =====
-- operator/internal/controller/tamoss_hibernation_driver.go: the declared hibernation of an
-- instance, turned into one operation for each cycle.
pub mod Guarded
use tamoss.Base.{
  ℕ, String, ◌==◌, Bool, true, false, not, ◌||◌, Option, none, some, [], ◌∷◌, is_none,
  if◌then◌else◌,
}
use tamoss.Base.Text.{concat}
use tamoss.Base.Int32.{next, is_positive, at_least, decimal}
use tamoss.Kube.{ObjectMeta, sprintf, ObjectReference}
use tamoss.Effect.{
  Action, return, lift, attempt, or_absent, ignore_not_found, ignore_already_exists, ◌>>=◌, ◌>>◌,
}
use tamoss.Resources.{Tamoss, TamossHibernate}
use tamoss.Resources.Lifecycle.{
  LifecyclePhase, LifecycleStatus, OperationPhase, HibernationDestination,
}
use tamoss.Cluster.{
  Api, Call, normal, get_hibernate, create_hibernate, delete_hibernate, write, emit,
}
use tamoss.Lifecycle.{patch_lifecycle}
use tamoss.Lifecycle.Operation.{is_completed, is_failed}
use tamoss.Hibernate.Source.{no_artifact, hibernate_kind}

-- `hibernationCycleOperationName`.
unfoldable pub cycle_operation_name : Tamoss → ℕ → String
unfolding decimal
cycle_operation_name t cycle = concat (t.metadata.name ∷ "-hibernation-" ∷ decimal cycle ∷ [])

-- `hibernationOperationTerminal`.
unfoldable pub operation_terminal : TamossHibernate → Bool
operation_terminal h = is_completed h.status.phase || is_failed h.status.phase

-- The operation that `ensureHibernationCycleOperation` creates, before its owner is set.
unfoldable pub cycle_operation : Tamoss → ℕ → HibernationDestination → TamossHibernate
unfolding cycle_operation_name decimal
cycle_operation t cycle destination = record {
  metadata = record {
    name = cycle_operation_name t cycle;
    namespace = t.metadata.namespace;
    uid = "";
    generation = 0;
    labels =
        ("app.kubernetes.io/name", "tamoss")
        ∷ ("app.kubernetes.io/instance", t.metadata.name)
        ∷ ("app.kubernetes.io/managed-by", "tamoss-operator")
        ∷ ("tamoss.livewyer.io/hibernation-cycle", decimal cycle)
        ∷ [];
    annotations = ("confirmation.tamoss.livewyer.io/deletion", "true") ∷ [];
    finalizers = [];
    owner_references = [];
    deletion_timestamp = none;
  };
  spec = record { tamoss_ref = t.metadata.name; destination = destination; driver = "" };
  status = record {
    observed_generation = 0;
    conditions = [];
    phase = OperationPhase.unset;
    reason = "";
    message = tamoss.Kube.Message.empty;
    started_at = none;
    completed_at = none;
    accepted_retry = "";
    artifact = no_artifact;
  };
}

-- The mutation of `recordHibernationCycle`.
unfoldable pub with_cycle : ℕ → LifecycleStatus → LifecycleStatus
with_cycle cycle l = record l { hibernation_cycle = cycle }

module _ (api : Api) where
  -- `recordHibernationCycle`: the instance as it is afterwards.
  unfoldable pub record_hibernation_cycle : Tamoss → ℕ → Action Call Tamoss
  unfolding at_least with_cycle
  record_hibernation_cycle t cycle =
      if at_least t.status.lifecycle.hibernation_cycle cycle
      then return t
      else patch_lifecycle api (with_cycle cycle) t

  -- The creation of an operation of a cycle, with its owner set.
  unfoldable pub create_cycle : Tamoss → ℕ → TamossHibernate → ObjectMeta → Action Call Tamoss
  unfolding record_hibernation_cycle
  create_cycle t cycle operation metadata = do
    created ← attempt (write api (create_hibernate (record operation { metadata = metadata })))
    lift (ignore_already_exists created)
    emit api normal t.metadata.name "TamossHibernating" (
        sprintf "Hibernation requested by spec; created TamossHibernate %s"
          (operation.metadata.name ∷ []))
    record_hibernation_cycle t cycle

  -- `ensureHibernationCycleOperation`, behind the read of the next cycle's operation.
  unfoldable pub materialise :
      Tamoss → ℕ → HibernationDestination → Option TamossHibernate → Action Call Tamoss
  unfolding record_hibernation_cycle cycle_operation create_cycle
  materialise t cycle destination (some existing) = record_hibernation_cycle t cycle
  materialise t cycle destination none =
      let operation = cycle_operation t cycle destination in
      lift (api.set_controller_reference t.metadata operation.metadata)
      >>= create_cycle t cycle operation

  -- `ensureHibernationCycleOperation`, where no cycle is in flight.
  unfoldable pub start_cycle : Tamoss → HibernationDestination → Action Call Tamoss
  unfolding next cycle_operation_name materialise
  start_cycle t destination = do
    let cycle = next t.status.lifecycle.hibernation_cycle
    read ← attempt (get_hibernate api t.metadata.namespace (cycle_operation_name t cycle))
    found ← lift (or_absent read)
    materialise t cycle destination found

  -- `ensureHibernationCycleOperation`, behind the read of the recorded cycle's operation.
  unfoldable pub start_unless_in_flight :
      Tamoss → HibernationDestination → Option TamossHibernate → Action Call Tamoss
  unfolding operation_terminal start_cycle
  start_unless_in_flight t destination none = start_cycle t destination
  start_unless_in_flight t destination (some h) =
      if operation_terminal h then start_cycle t destination else return t

  -- `ensureHibernationCycleOperation`, where a cycle is recorded.
  unfoldable pub start_behind : Tamoss → HibernationDestination → ℕ → Action Call Tamoss
  unfolding cycle_operation_name start_unless_in_flight
  start_behind t destination current = do
    read ← attempt (get_hibernate api t.metadata.namespace (cycle_operation_name t current))
    found ← lift (or_absent read)
    start_unless_in_flight t destination found

  -- `ensureHibernationCycleOperation`.
  unfoldable pub ensure_cycle_operation :
      Tamoss → Option HibernationDestination → Action Call Tamoss
  unfolding is_positive start_behind start_cycle
  ensure_cycle_operation t none = return t
  ensure_cycle_operation t (some destination) =
      if is_positive t.status.lifecycle.hibernation_cycle
      then start_behind t destination t.status.lifecycle.hibernation_cycle
      else start_cycle t destination

  -- `abortSpecHibernation`, behind the read of the operation.
  unfoldable pub abort_found : Tamoss → Option TamossHibernate → Action Call (Unit {0})
  abort_found t none = return tt
  abort_found t (some h) =
      if not (api.is_controlled_by h.metadata t.metadata)
      then return tt
      else if not (is_none h.metadata.deletion_timestamp)
      then return tt
      else (do
        emit api normal t.metadata.name "LifecycleOperationDeleted" (
            sprintf "Hibernation disabled by spec; aborting TamossHibernate %s"
              (h.metadata.name ∷ []))
        deleted ← attempt (write api (delete_hibernate h))
        lift (ignore_not_found deleted))

  -- `abortSpecHibernation`.
  unfoldable pub abort_spec_hibernation : Tamoss → Option ObjectReference → Action Call (Unit {0})
  unfolding abort_found
  abort_spec_hibernation t none = return tt
  abort_spec_hibernation t (some ref) = if not (ref.kind == hibernate_kind) then return tt else (do
    read ← attempt (get_hibernate api t.metadata.namespace ref.name)
    found ← lift (or_absent read)
    abort_found t found)

  -- The phases of `reconcileHibernationSpec`.
  abbrev pub is_startable : LifecyclePhase → Bool
  is_startable LifecyclePhase.unset = true
  is_startable LifecyclePhase.running = true
  is_startable p = false

  abbrev pub is_hibernating : LifecyclePhase → Bool
  is_hibernating LifecyclePhase.hibernating = true
  is_hibernating p = false

  -- `reconcileHibernationSpec`: the instance as it is afterwards.
  unfoldable pub reconcile_hibernation_spec : Tamoss → Action Call Tamoss
  unfolding ensure_cycle_operation abort_spec_hibernation
  reconcile_hibernation_spec t =
      if t.spec.hibernation.enabled
      then (if is_startable t.status.lifecycle.phase
          then ensure_cycle_operation t t.spec.hibernation.destination
          else return t)
      else if is_hibernating t.status.lifecycle.phase
      then (do abort_spec_hibernation t t.status.lifecycle.active_operation_ref; return t)
      else return t
