-- ===== src/Ingest/Ending.antt =====
-- Which phase the end of a Job gives a run, and that a run does not wait for it forever.
use tamoss.Base.{
  String, ◌≡◌, refl, ap, Bool, true, false, ◌&&◌, Option, none, some, List, ◌∷◌, decided,
  of_decided, arith,
}
use mathlib.Core.Bool.{not}
use mathlib.Core.Logic.{◌↔◌}
use tamoss.Kube.{ReconcileResult, Time, Error}
use tamoss.Effect.{Result, ok, err, resume, return, ◌>>=◌}
use tamoss.Effect.Yields.{OfResult, Yields, Yields-imply, Leads, Leads-attempt, Leads-observe}
use tamoss.Ingest.Run.{
  IngestRun, IngestRunStatus, IngestRunStatus-discrete, IngestRunPhase, IngestRunResult, JobStatus,
  is_terminal,
}
use tamoss.Ingest.Stream.{
  RunOutcome, run_succeeded, run_partial, StreamSummary, StreamState, apply_stream_summary, PodLog,
  decode_ingest_stream, limited, summary_of_reduced, reduced, extract_ingest_protocol_events,
  summary_of,
}
use tamoss.Ingest.Job.{Job}
use tamoss.Ingest.Api.{IngestApi, IngestCall, patch_run_status}
use tamoss.Ingest.Status.{demoted, patch_settled, set_job_phase_with_stream, set_job_phase}
use tamoss.Ingest.Discipline.{settled_status-phase}
use tamoss.Ingest.Pods.{collect_ingest_stream}
use tamoss.Ingest.Track.{track_with_stream, track_finished, track_job}
use tamoss.Ingest.Evidence.{Yields-collect}
use tamoss.Ingest.Phase.{
  PhaseReport, result_required_for_phase, is_unverified, job_finished, job_terminal_reference,
  observation_deadline_expired, phase_from_job, phase_of_finished, phase_of_summary,
  phase_of_outcome, stream_failure_phase,
}

-- What a success is, in one condition.
unfoldable pub IsAccepted : RunOutcome → JobStatus → IngestRunResult → Option StreamSummary → Type 0
IsAccepted o s result none = ⊥
IsAccepted o s result (some summary) =
    (job_finished s ≡ true)
    × (summary.run_finished ≡ true)
    × (summary.outcome ≡ o)
    × (is_unverified result ≡ false)

-- By its Job, a run has succeeded, or partially succeeded, exactly if the Job is finished, its stream is
-- finished with that outcome, and a recorded result is verified; the time does not matter.
pub phase_from_job-succeeded_iff :
    (s : JobStatus) (result : IngestRunResult) (now : Time) (stream : Option StreamSummary)
    → (((phase_from_job s result now stream).phase ≡ IngestRunPhase.succeeded)
        ↔ IsAccepted run_succeeded s result stream)
      × (((phase_from_job s result now stream).phase ≡ IngestRunPhase.partially_succeeded)
          ↔ IsAccepted run_partial s result stream)
unfolding phase_from_job IsAccepted phase_of_finished phase_of_summary phase_of_outcome
phase_from_job-succeeded_iff s result now none = ground arith
phase_from_job-succeeded_iff s result now (some summary) = ground arith

-- A summary that was decoded is finished.
reduced-finished :
    (r : Result StreamState) (summary : StreamSummary)
    → summary_of_reduced r ≡ ok summary
    → summary.run_finished ≡ true
unfolding summary_of_reduced summary_of
reduced-finished r summary e = ground arith

events-finished :
    (declares_protocol : String → Bool) (reduce : String → Result StreamState) (log : PodLog)
    (r : Result String) (summary : StreamSummary)
    → reduced declares_protocol reduce log r ≡ ok summary
    → summary.run_finished ≡ true
events-finished declares_protocol reduce log (err x) summary e = ground arith
events-finished declares_protocol reduce log (ok events) summary e =
    ground (arith, reduced-finished (reduce events) summary)

decoded-finished :
    (declares_protocol : String → Bool) (reduce : String → Result StreamState) (log : PodLog)
    (summary : StreamSummary)
    → decode_ingest_stream declares_protocol reduce log ≡ ok summary
    → summary.run_finished ≡ true
unfolding decode_ingest_stream
decoded-finished declares_protocol reduce log summary e =
    events-finished declares_protocol reduce log
      (extract_ingest_protocol_events declares_protocol reduce (limited log)) summary e

-- Not a success that is not verified.
abbrev shows_end : IngestRunResult → PhaseReport → Bool
shows_end result r =
    is_terminal r.phase && not (result_required_for_phase r.phase && is_unverified result)

-- A stream that failed, or that was decoded, ends the run behind the deadline.
late_failure :
    (s : JobStatus) (result : IngestRunResult) (now : Time) (e : Error)
    → observation_deadline_expired (job_terminal_reference s) now ≡ true
    → shows_end result (stream_failure_phase s now e) ≡ true
unfolding stream_failure_phase is_terminal result_required_for_phase
late_failure s result now e late = ground arith

late_summary :
    (s : JobStatus) (result : IngestRunResult) (now : Time) (summary : StreamSummary)
    → job_finished s ≡ true
    → observation_deadline_expired (job_terminal_reference s) now ≡ true
    → summary.run_finished ≡ true
    → shows_end result (phase_from_job s result now (some summary)) ≡ true
unfolding phase_from_job phase_of_finished phase_of_summary phase_of_outcome is_terminal
    result_required_for_phase
late_summary s result now summary finished late over = ground arith

-- The last call reports the end of the run.
unfoldable pub ReportsEnd : List IngestCall → Type 0
ReportsEnd (patch_run_status r ∷ log) = is_terminal r.status.phase ≡ true
ReportsEnd log = ⊥

module _ (api : IngestApi) (run : IngestRun) (active : is_terminal run.status.phase ≡ false) where
  -- A status that is over is not the one at hand.
  differs :
      (status : IngestRunStatus)
      → is_terminal status.phase ≡ true
      → decided (IngestRunStatus-discrete run.status status) ≡ true
      → ⊥
  differs status over same =
      let e : is_terminal run.status.phase ≡ is_terminal status.phase =
        ap (λ (s : IngestRunStatus). is_terminal s.phase) (of_decided _ same) in
      ground arith

  kept_behind :
      (answer : Result (Unit {0})) (result : ReconcileResult) (log : List IngestCall)
      → ReportsEnd log
      → ReportsEnd (resume answer (λ u. return {C = IngestCall} result) log).1
  unfolding ◌>>=◌
  kept_behind (ok u) result log h = h
  kept_behind (err e) result log h = h

  patched :
      (status : IngestRunStatus) (result : ReconcileResult) (b : Bool)
      → is_terminal status.phase ≡ true
      → decided (IngestRunStatus-discrete run.status status) ≡ b
      → (log : List IngestCall) → ReportsEnd (patch_settled api run status result log).1
  unfolding patch_settled ◌>>=◌ ReportsEnd
  patched status result true over same log = absurd (differs status over same)
  patched status result false over same log =
      rw same (kept_behind _ result (patch_run_status (record run { status = status }) ∷ log) over)

  demoted_over :
      (s : IngestRunStatus) (r : PhaseReport)
      → shows_end s.result_ref r ≡ true
      → is_terminal (demoted s r).phase ≡ true
  unfolding demoted
  demoted_over s r over = ground arith

  applied_over :
      (r : PhaseReport) (stream : Option StreamSummary)
      → shows_end run.status.result_ref r ≡ true
      → is_terminal (demoted (apply_stream_summary stream run.status) r).phase ≡ true
  unfolding apply_stream_summary
  applied_over r none over = demoted_over _ r over
  applied_over r (some summary) over = demoted_over _ r over

  settled_over :
      (job : Option Job) (r : PhaseReport) (stream : Option StreamSummary)
      → shows_end run.status.result_ref r ≡ true
      → (log : List IngestCall)
      → ReportsEnd (set_job_phase_with_stream api run job r 0 0 stream log).1
  unfolding set_job_phase_with_stream ◌>>=◌
  settled_over job r stream over log =
      patched _ _ _
        (rw (settled_status-phase api _ job r 0 0 stream _ _ run.status)
          (applied_over r stream over))
        refl log

  -- What the collection yields is finished.
  Yields-finished :
      (job : Job) → Yields (λ summary. summary.run_finished ≡ true) (collect_ingest_stream api job)
  Yields-finished job =
      Yields-imply _ (Yields-collect api job)
        (λ summary c. decoded-finished _ _ _ summary c.decoded)

  module _ (job : Job) (finished : job_finished job.status ≡ true)
      (late : (log : List IngestCall)
        → observation_deadline_expired (job_terminal_reference job.status) (api.now log)
          ≡ true) where
    Leads-tracked :
        (r : Result StreamSummary)
        → OfResult (λ summary. summary.run_finished ≡ true) r
        → Leads ReportsEnd (track_finished api run job r)
    unfolding track_finished track_with_stream set_job_phase
    Leads-tracked (ok summary) over = Leads-observe _ _ (λ log.
        settled_over (some job)
          (phase_from_job job.status run.status.result_ref (api.now log) (some summary))
          (some summary)
          (late_summary job.status run.status.result_ref (api.now log) summary finished (late log)
            over)
          log)
    Leads-tracked (err e) h = Leads-observe _ _ (λ log.
        settled_over (some job) (stream_failure_phase job.status (api.now log) e) none
          (late_failure job.status run.status.result_ref (api.now log) e (late log)) log)

    -- The run does not wait for a finished Job forever: once the Job's end is further back than the
    -- observation deadline, the reconcile of a run that is not over ends with a status that is over,
    -- whatever the logs and the API server answer, and whatever result has been recorded.
    pub track_job-ReportsEnd : (log : List IngestCall) → ReportsEnd (track_job api run job log).1
    unfolding track_job
    track_job-ReportsEnd log =
        rw finished ((Leads-attempt _ _ (Yields-finished job) Leads-tracked).holds log)
