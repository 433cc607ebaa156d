-- ===== src/Ingest/Status.antt =====
-- The status of an ingest run (setIngestRunJobPhaseWithStream and its callers in
-- ingestrun_controller.go).
use mathlib.Core.Bool.{not}
use tamoss.Base.{ℕ, String, Bool, true, false, ◌&&◌, Option, none, some, decided, if◌then◌else◌}
use tamoss.Base.Assoc.{get}
use tamoss.Base.Int32.{is_positive}
use tamoss.Kube.{
  Time, Condition, ConditionStatus, condition_true, condition_false, ReconcileResult, done, requeue,
}
use tamoss.Effect.{Action, return, ◌>>=◌, ◌>>◌}
use tamoss.Ingest.Run.{
  IngestRun, IngestRunStatus, IngestRunStatus-discrete, IngestRunPhase, is_terminal,
}
use tamoss.Ingest.Stream.{StreamSummary, apply_stream_summary}
use tamoss.Ingest.Job.{Job}
use tamoss.Ingest.Desired.{ingest_source_annotation, ingest_source_policy_annotation}
use tamoss.Ingest.Phase.{PhaseReport, report, result_required_for_phase, is_unverified}
use tamoss.Ingest.Api.{IngestApi, IngestCall, patch_run_status, submit, clock}

-- `ingestRunRequeuePending`, in seconds.
abbrev pub ingest_run_requeue_pending : ℕ
ingest_run_requeue_pending = 15

-- `ingestRunRequeueCancel`, in seconds.
abbrev pub ingest_run_requeue_cancel : ℕ
ingest_run_requeue_cancel = 2

-- A success is not shown while a recorded result is not verified.
unfoldable pub demoted : IngestRunStatus → PhaseReport → PhaseReport
unfolding is_unverified result_required_for_phase
demoted status r =
    if result_required_for_phase r.phase && is_unverified status.result_ref
    then report IngestRunPhase.running "ResultVerificationPending"
        "A durable result was recorded but has not passed digest verification" false
    else r

abbrev or_now : Option Time → Time → Option Time
or_now none now = some now
or_now (some t) now = some t

-- What the status keeps of the Job, and when the run started.
unfoldable pub with_job : Option Job → Time → IngestRunStatus → IngestRunStatus
unfolding get
with_job none now status = status
with_job (some job) now status = record status {
  job_ref = record { name = job.metadata.name; uid = job.metadata.uid };
  resolved_source = record {
    name = get ingest_source_annotation job.metadata.annotations;
    policy_digest = get ingest_source_policy_annotation job.metadata.annotations;
  };
  started_at = or_now status.started_at now;
}

unfoldable pub with_completion : Time → IngestRunStatus → IngestRunStatus
unfolding is_terminal
with_completion now status = record status {
  completed_at =
      if is_terminal status.phase then or_now status.completed_at now else status.completed_at;
}

abbrev status_of_bool : Bool → ConditionStatus
status_of_bool true = condition_true
status_of_bool false = condition_false

abbrev is_succeeded : IngestRunPhase → Bool
is_succeeded IngestRunPhase.succeeded = true
is_succeeded p = false

module _ (api : IngestApi) where
  abbrev condition : String → Bool → ℕ → PhaseReport → Condition
  condition type b generation r = record {
    type = type;
    status = status_of_bool b;
    observed_generation = generation;
    last_transition_time = 0;
    reason = r.reason;
    message = r.message;
  }

  unfoldable pub with_conditions : ℕ → PhaseReport → IngestRunStatus → IngestRunStatus
  with_conditions generation r status = record status {
    conditions =
        api.set_status_condition
          (api.set_status_condition status.conditions
            (condition "Ready" (is_succeeded r.phase) generation r))
          (condition "Progressing" r.progressing generation r);
  }

  -- The phase and the numbers, the latter only if they are positive.
  unfoldable pub with_phase : ℕ → PhaseReport → ℕ → ℕ → IngestRunStatus → IngestRunStatus
  unfolding is_positive
  with_phase generation r inputs_total attempt status = record status {
    observed_generation = generation;
    phase = r.phase;
    progress = record status.progress {
      inputs_total =
          if is_positive inputs_total then inputs_total else status.progress.inputs_total;
    };
    attempt = if is_positive attempt then attempt else status.attempt;
  }

  -- The status that is to be, from the one at hand; the clock is read for the start and the end.
  unfoldable pub settled_status :
      ℕ
      → Option Job
      → PhaseReport
      → ℕ
      → ℕ
      → Option StreamSummary
      → Time
      → Time
      → IngestRunStatus
      → IngestRunStatus
  unfolding apply_stream_summary demoted with_job with_completion with_conditions with_phase
  settled_status generation job r inputs_total attempt stream started completed status =
      let observed = apply_stream_summary stream status in
      let shown = demoted observed r in
      with_conditions generation shown (
        with_completion completed
          (with_job job started (with_phase generation shown inputs_total attempt observed)))

  abbrev requeue_of : PhaseReport → ReconcileResult
  requeue_of r =
      if not (is_terminal r.phase) && not r.progressing
      then requeue ingest_run_requeue_pending
      else done

  -- The patch, where the status has changed.
  unfoldable pub patch_settled :
      IngestRun → IngestRunStatus → ReconcileResult → Action IngestCall ReconcileResult
  patch_settled run status result =
      if decided (IngestRunStatus-discrete run.status status)
      then return result
      else (do submit api (patch_run_status (record run { status = status })); return result)

  -- `setIngestRunJobPhaseWithStream`.
  unfoldable pub set_job_phase_with_stream :
      IngestRun
      → Option Job
      → PhaseReport
      → ℕ
      → ℕ
      → Option StreamSummary
      → Action IngestCall ReconcileResult
  unfolding settled_status patch_settled is_terminal
  set_job_phase_with_stream run job r inputs_total attempt stream = do
    started ← clock api
    completed ← clock api
    patch_settled run
        (settled_status run.metadata.generation job r inputs_total attempt stream started completed
          run.status)
        (requeue_of (demoted (apply_stream_summary stream run.status) r))

  -- `setIngestRunJobPhase` of an existing Job, with its usual numbers.
  unfoldable pub set_job_phase : IngestRun → Job → PhaseReport → Action IngestCall ReconcileResult
  unfolding set_job_phase_with_stream
  set_job_phase run job r = set_job_phase_with_stream run (some job) r 0 0 none

  -- `setIngestRunPhase`.
  unfoldable pub set_phase : IngestRun → PhaseReport → Action IngestCall ReconcileResult
  unfolding set_job_phase_with_stream
  set_phase run r = set_job_phase_with_stream run none r 0 0 none

  -- `setIngestRunStaticPhase`.
  unfoldable pub set_static_phase : IngestRun → PhaseReport → Action IngestCall ReconcileResult
  unfolding set_phase
  set_static_phase run r = do result ← set_phase run r; return done
