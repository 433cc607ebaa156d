-- ===== src/Ingest/Track.antt =====
-- An ingest run beside its admission (ingestrun_controller.go): the run that has its Job, the
-- cancellation, the Job that went missing and the instance that was deleted.
use tamoss.Base.{
  String, ◌==◌, Bool, true, false, ◌&&◌, Option, none, some, is_some, List, [], ◌∷◌, is_none,
  nat_eq, if◌then◌else◌,
}
use tamoss.Base.Assoc.{get}
use tamoss.Kube.{Message, sprintf, ReconcileResult, requeue}
use tamoss.Effect.{
  Result, ok, err, Action, return, lift, attempt, call, or_absent, ignore_not_found, ◌>>=◌, ◌>>◌,
}
use tamoss.Ingest.Run.{IngestRun, IngestRunSpec, IngestRunPhase}
use tamoss.Ingest.Names.{ingest_job_name, ingest_run_selector_value}
use tamoss.Ingest.Stream.{StreamSummary}
use tamoss.Ingest.Job.{Job}
use tamoss.Ingest.Desired.{ingest_run_label, ingest_run_target_label}
use tamoss.Ingest.Phase.{PhaseReport, report, job_finished, stream_failure_phase, phase_from_job}
use tamoss.Ingest.Api.{IngestApi, IngestCall, read_live, delete_job, get_job, submit, clock}
use tamoss.Ingest.Status.{
  set_job_phase_with_stream, set_job_phase, set_phase, ingest_run_requeue_cancel,
}
use tamoss.Ingest.Pods.{collect_ingest_stream, run_pods_remain}

-- A run that waits, or has another phase, with a message of its own.
abbrev report_message : IngestRunPhase → String → Message → Bool → PhaseReport
report_message phase reason message progressing = record {
  phase = phase;
  reason = reason;
  message = message;
  progressing = progressing;
}

abbrev pub pending : String → Message → PhaseReport
pending reason message = report_message IngestRunPhase.pending reason message false

-- `if result.RequeueAfter == 0 { result.RequeueAfter = ingestRunRequeueCancel }`.
unfoldable pub or_requeue_cancel : ReconcileResult → ReconcileResult
or_requeue_cancel r = if nat_eq r.requeue_after 0 then requeue ingest_run_requeue_cancel else r

module _ (api : IngestApi) where
  -- `ingestJobBelongsToRun`.
  unfoldable pub job_belongs_to_run : Job → IngestRun → IngestRunSpec → Bool
  unfolding get ingest_run_selector_value
  job_belongs_to_run job run spec =
      api.is_controlled_by job.metadata run.metadata
      && get ingest_run_label job.metadata.labels
        == ingest_run_selector_value api.sha256_hex run.metadata.name
      && get ingest_run_target_label job.metadata.labels == spec.tamoss_ref

  -- `loadIngestJob`.
  unfoldable pub load_ingest_job : IngestRun → Action IngestCall (Option Job)
  unfolding ingest_job_name
  load_ingest_job run = do
    read ←
        attempt
          (get_job api run.metadata.namespace (ingest_job_name api.sha256_hex run.metadata.name))
    lift (or_absent read)

  abbrev pub present_by :
      String
      → String
      → String
      → Option (List IngestCall → String → String → String → Result (Unit {0}))
      → Action IngestCall Bool
  present_by kind ns name none = return false
  present_by kind ns name (some live) = do
    read ← attempt (call (read_live kind ns name) (λ log. live log kind ns name))
    found ← lift (or_absent read)
    return (is_some found)

  -- `APIReader.Get`: whether the object is there; without an uncached reader it is taken for absent.
  unfoldable pub present_live : String → String → String → Action IngestCall Bool
  present_live kind ns name = present_by kind ns name api.live_at

  -- The deletion of the Job, unless it is being deleted.
  unfoldable pub stop_job : Job → Action IngestCall (Unit {0})
  stop_job job =
      if is_none job.metadata.deletion_timestamp
      then (do deleted ← attempt (submit api (delete_job job)); lift (ignore_not_found deleted))
      else return tt

  -- `reconcileIngestCancellation`, where no Job is left.
  unfoldable pub cancel_without_job : IngestRun → Bool → Action IngestCall ReconcileResult
  unfolding set_phase or_requeue_cancel
  cancel_without_job run true = do
    result ←
        set_phase api run (
          report IngestRunPhase.running "CancellationRequested" "The TAMSin Pod is terminating"
            true)
    return (or_requeue_cancel result)
  cancel_without_job run false =
      set_phase api run
        (report IngestRunPhase.cancelled "Cancelled" "The ingest run was cancelled" false)

  -- `reconcileIngestCancellation`.
  unfoldable pub reconcile_cancellation : IngestRun → Option Job → Action IngestCall ReconcileResult
  unfolding run_pods_remain cancel_without_job stop_job set_job_phase or_requeue_cancel
  reconcile_cancellation run none = run_pods_remain api run >>= cancel_without_job run
  reconcile_cancellation run (some job) = do
    stop_job job
    result ←
        set_job_phase api run job (
          report IngestRunPhase.running "CancellationRequested" "The TAMSin Job is terminating"
            true)
    return (or_requeue_cancel result)

  -- `abandonIngestRunForDeletedTamoss`, behind the live read of the instance.
  unfoldable pub abandon_absent :
      IngestRun → IngestRunSpec → Job → Bool → Action IngestCall ReconcileResult
  unfolding stop_job set_job_phase
  abandon_absent run spec job true = return (requeue ingest_run_requeue_cancel)
  abandon_absent run spec job false = do
    stop_job job
    set_job_phase api run job (
        report_message IngestRunPhase.failed "TamossNotFound"
          (sprintf "Tamoss %s/%s was deleted while the TAMSin Job was running"
            (run.metadata.namespace ∷ spec.tamoss_ref ∷ []))
          false)

  -- `abandonIngestRunForDeletedTamoss`.
  unfoldable pub abandon : IngestRun → IngestRunSpec → Job → Action IngestCall ReconcileResult
  unfolding present_live abandon_absent
  abandon run spec job =
      present_live "Tamoss" run.metadata.namespace spec.tamoss_ref >>= abandon_absent run spec job

  -- `reconcileMissingIngestJob`, behind the live read of the Job.
  unfoldable pub missing_job : IngestRun → Bool → Action IngestCall ReconcileResult
  unfolding set_phase
  missing_job run true = return (requeue ingest_run_requeue_cancel)
  missing_job run false = set_phase api run (
      report IngestRunPhase.failed "IngestJobMissing"
        "The recorded TAMSin Job no longer exists, so the run outcome cannot be confirmed; the operator does not replay ingest automatically"
        false)

  -- `reconcileMissingIngestJob`, with `ingestJobPresentLive`.
  unfoldable pub reconcile_missing_job : IngestRun → Action IngestCall ReconcileResult
  unfolding present_live missing_job ingest_job_name
  reconcile_missing_job run =
      present_live "Job" run.metadata.namespace (ingest_job_name api.sha256_hex run.metadata.name)
      >>= missing_job run

  -- The status of a run by its Job alone, with the stream if it has been read.
  unfoldable pub track_with_stream :
      IngestRun → Job → Option StreamSummary → Action IngestCall ReconcileResult
  unfolding phase_from_job set_job_phase_with_stream
  track_with_stream run job stream = do
    now ← clock api
    set_job_phase_with_stream api run (some job)
        (phase_from_job job.status run.status.result_ref now stream) 0 0 stream

  -- Behind the collection of the stream.
  unfoldable pub track_finished :
      IngestRun → Job → Result StreamSummary → Action IngestCall ReconcileResult
  unfolding track_with_stream stream_failure_phase set_job_phase
  track_finished run job (ok summary) = track_with_stream run job (some summary)
  track_finished run job (err e) = do
    now ← clock api
    set_job_phase api run job (stream_failure_phase job.status now e)

  -- The part of `Reconcile` for a run that has its Job.
  unfoldable pub track_job : IngestRun → Job → Action IngestCall ReconcileResult
  unfolding job_finished collect_ingest_stream track_finished track_with_stream
  track_job run job =
      if job_finished job.status
      then attempt (collect_ingest_stream api job) >>= track_finished run job
      else track_with_stream run job none
