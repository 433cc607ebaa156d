-- ===== src/Lifecycle/Operation.antt =====
-- operator/internal/controller/tamoss_operation_status.go, with the condition setters of
-- operator/internal/status/conditions.go and the comparison of status_patch.go.
use tamoss.Base.{
  ℕ, String, ◌==◌, Bool, true, false, not, ◌&&◌, ◌||◌, some, List, map, decided, is_none,
  if◌then◌else◌,
}
use tamoss.Kube.{
  Time, Message, Message-discrete, Condition, ConditionStatus, condition_true, condition_false,
  ReconcileResult, done, requeue,
}
use tamoss.Effect.{Action, return, ◌>>=◌, ◌>>◌}
use tamoss.Resources.{TamossHibernate}
use tamoss.Resources.Lifecycle.{
  OperationPhase, OperationPhase-discrete, OperationStatus, OperationStatus-discrete, Artifact,
  CleanupPhase,
}
use tamoss.Cluster.{Api, Call, normal, warning, send_hibernate_status, current_time, emit}

abbrev pub is_completed : OperationPhase → Bool
is_completed OperationPhase.completed = true
is_completed p = false

abbrev pub is_failed : OperationPhase → Bool
is_failed OperationPhase.failed = true
is_failed p = false

abbrev pub is_pending : OperationPhase → Bool
is_pending OperationPhase.pending = true
is_pending p = false

-- `operationWaitResult`.
unfoldable pub operation_wait_result : OperationPhase → ℕ → ReconcileResult
operation_wait_result OperationPhase.completed poll = done
operation_wait_result OperationPhase.failed poll = done
operation_wait_result phase poll = requeue poll

abbrev pub has_cleanup : CleanupPhase → Bool
has_cleanup CleanupPhase.unset = false
has_cleanup p = true

-- Whether an artifact says anything, the test in `setOperationStatus`.
unfoldable pub artifact_is_set : Artifact → Bool
artifact_is_set a =
    not (a.driver == "")
    || not (a.manifest_uri == "")
    || not (a.manifest_key == "")
    || not (a.cnpg_backup.name == "")
    || has_cleanup a.cleanup.phase

abbrev pub condition_status : Bool → ConditionStatus
condition_status true = condition_true
condition_status false = condition_false

-- `normalizeConditionTimes`.
unfoldable pub normalize_condition_times : OperationStatus → OperationStatus
normalize_condition_times s = record s {
  conditions = map (λ (c : Condition). record c { last_transition_time = 0 }) s.conditions;
}

-- `operationStatusSemanticEqual`.
unfoldable pub operation_status_equal : OperationStatus → OperationStatus → Bool
unfolding normalize_condition_times
operation_status_equal a b =
    decided (OperationStatus-discrete (normalize_condition_times a) (normalize_condition_times b))

module _ (api : Api) where
  -- `SetConditionBool`, by `SetConditionStatus`. The library stamps the transition time.
  unfoldable pub set_condition_bool :
      List Condition → ℕ → String → Bool → String → Message → List Condition
  set_condition_bool cs generation type holds reason message = api.set_status_condition cs (record {
    type = type;
    status = condition_status holds;
    observed_generation = generation;
    last_transition_time = 0;
    reason = reason;
    message = message;
  })

  -- `setOperationStatus`.
  unfoldable pub set_operation_status :
      Time → ℕ → OperationPhase → String → Message → Artifact → OperationStatus → OperationStatus
  unfolding artifact_is_set set_condition_bool
  set_operation_status now generation phase reason message artifact s = record s {
    observed_generation = generation;
    phase = phase;
    reason = reason;
    message = message;
    started_at = if is_none s.started_at && not (is_pending phase) then some now else s.started_at;
    completed_at =
        if is_none s.completed_at && (is_completed phase || is_failed phase)
        then some now
        else s.completed_at;
    artifact = if artifact_is_set artifact then artifact else s.artifact;
    conditions =
        set_condition_bool
          (set_condition_bool
            (set_condition_bool s.conditions generation "Ready" (is_completed phase) reason message)
            generation "Progressing" (not (is_completed phase) && not (is_failed phase)) reason
            message)
          generation "Degraded" (is_failed phase) reason message;
  }

  -- `recordOperationEvents`: a final phase is announced at each change of phase, reason or
  -- message, another phase when it is entered.
  unfoldable pub record_operation_events :
      String → OperationStatus → OperationStatus → Action Call (Unit {0})
  record_operation_events name original updated =
      let same_phase = decided (OperationPhase-discrete original.phase updated.phase) in
      if same_phase
        && original.reason == updated.reason
        && decided (Message-discrete original.message updated.message)
      then return tt
      else if is_completed updated.phase
      then emit api normal name updated.reason updated.message
      else if is_failed updated.phase
      then emit api warning name updated.reason updated.message
      else if same_phase
      then return tt
      else emit api normal name updated.reason updated.message

  -- The operation as `updateHibernateStatus` makes it.
  unfoldable pub with_operation_status :
      Time → OperationPhase → String → Message → Artifact → TamossHibernate → TamossHibernate
  unfolding set_operation_status
  with_operation_status now phase reason message artifact h = record h {
    status = set_operation_status now h.metadata.generation phase reason message artifact h.status;
  }

  -- `updateHibernateStatus`: the operation with its new status.
  unfoldable pub update_hibernate_status :
      TamossHibernate → OperationPhase → String → Message → Artifact → Action Call TamossHibernate
  unfolding with_operation_status operation_status_equal record_operation_events
  update_hibernate_status h phase reason message artifact = do
    now ← current_time api
    let updated = with_operation_status now phase reason message artifact h
    if operation_status_equal h.status updated.status then return updated else (do
      answered ← send_hibernate_status api updated
      record_operation_events h.metadata.name h.status answered.status
      return answered)
