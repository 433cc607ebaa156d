-- ===== src/Ingest/Guarded.antt =====
-- The calls of an ingest run beside its admission are allowed ones: the run that has its Job, the
-- cancellation, the Job that went missing and the instance that was deleted.
use tamoss.Base.{
  String, ◌==◌, ◌≡◌, refl, Bool, true, false, ◌&&◌, Option, none, some, is_some, ltb, List,
}
use tamoss.Kube.{Time, Error}
use tamoss.Effect.{Result, ok, err}
use tamoss.Effect.Preserves.{
  Preserves-Every, Preserves-return, Preserves-throw, Preserves-attempt, Preserves-bind,
  Preserves-if, Preserves-observe, preserves_rules,
}
use tamoss.Effect.Yields.{OfResult, Yields-attempt, Preserves-bind_yield}
use tamoss.Config.{Config}
use tamoss.Ingest.Run.{IngestRun, IngestRunSpec, default_ingest_run_spec, is_terminal}
use tamoss.Ingest.Stream.{
  RunOutcome, run_succeeded, run_partial, run_interrupted, run_failed, run_other, StreamSummary,
  PodLog,
}
use tamoss.Ingest.Job.{Job}
use tamoss.Ingest.Phase.{
  is_unverified, is_success, job_finished, phase_from_job, phase_of_finished, phase_of_summary,
  phase_of_outcome, stream_failure_phase, observation_deadline_expired, job_terminal_reference,
  is_stream_invalid,
}
use tamoss.Ingest.Api.{IngestApi, IngestCall}
use tamoss.Ingest.Pods.{
  Selected, terminal_pod_result, stream_of, collect_by, collect_ingest_stream, run_pods_remain,
}
use tamoss.Ingest.Track.{
  job_belongs_to_run, load_ingest_job, present_by, present_live, stop_job, cancel_without_job,
  reconcile_cancellation, abandon_absent, abandon, missing_job, reconcile_missing_job,
  track_with_stream, track_finished, track_job,
}
use tamoss.Ingest.Evidence.{IsCollected, Yields-collect}
use tamoss.Ingest.Discipline.{
  MayShow, MayCall, Keeps, Keeps-set_job_phase_with_stream, Keeps-set_job_phase, Keeps-set_phase,
}

module _ (api : IngestApi) (cfg : Config) (run : IngestRun) where
  Keeps-terminal_pod : (job : Job) → Keeps api cfg run (terminal_pod_result api job)
  unfolding MayCall terminal_pod_result
  Keeps-terminal_pod job = search (preserves_rules, Preserves-Every (MayCall api cfg run)) depth 20

  Keeps-stream :
      (job : Job) (reader : List IngestCall → String → String → String → Result PodLog)
      (s : Selected)
      → Keeps api cfg run (stream_of api job reader s)
  unfolding MayCall stream_of
  Keeps-stream job reader none = Preserves-throw _
  Keeps-stream job reader (some (pod, t)) =
      search (preserves_rules, Preserves-Every (MayCall api cfg run)) depth 20

  Keeps-collect_by :
      (job : Job) (r : Option (List IngestCall → String → String → String → Result PodLog))
      → Keeps api cfg run (collect_by api job r)
  Keeps-collect_by job none = Preserves-throw _
  Keeps-collect_by job (some reader) =
      Preserves-bind _ _ (Keeps-terminal_pod job) (Keeps-stream job reader)

  Keeps-collect : (job : Job) → Keeps api cfg run (collect_ingest_stream api job)
  unfolding collect_ingest_stream
  Keeps-collect job = Keeps-collect_by job _

  Keeps-present_by :
      (kind ns name : String)
      (r : Option (List IngestCall → String → String → String → Result (Unit {0})))
      → Keeps api cfg run (present_by api kind ns name r)
  unfolding MayCall
  Keeps-present_by kind ns name none = Preserves-return _
  Keeps-present_by kind ns name (some live) =
      search (preserves_rules, Preserves-Every (MayCall api cfg run)) depth 20

  Keeps-present : (kind ns name : String) → Keeps api cfg run (present_live api kind ns name)
  unfolding present_live
  Keeps-present kind ns name = Keeps-present_by kind ns name _

  pub Keeps-load : Keeps api cfg run (load_ingest_job api run)
  unfolding MayCall load_ingest_job
  Keeps-load = search (preserves_rules, Preserves-Every (MayCall api cfg run)) depth 20

  Keeps-pods : Keeps api cfg run (run_pods_remain api run)
  unfolding MayCall run_pods_remain
  Keeps-pods = search (preserves_rules, Preserves-Every (MayCall api cfg run)) depth 20

  Keeps-missing_job : (present : Bool) → Keeps api cfg run (missing_job api run present)
  unfolding MayShow missing_job
  Keeps-missing_job true = Preserves-return _
  Keeps-missing_job false = search (Keeps-set_phase api cfg run) depth 10

  pub Keeps-missing : Keeps api cfg run (reconcile_missing_job api run)
  unfolding reconcile_missing_job
  Keeps-missing = Preserves-bind _ _ (Keeps-present _ _ _) Keeps-missing_job

  module _ (job : Job)
      (owned : job_belongs_to_run api job run (default_ingest_run_spec run.spec) ≡ true)
      (active : is_terminal run.status.phase ≡ false) where
    Keeps-stop : Keeps api cfg run (stop_job api job)
    unfolding MayCall stop_job
    Keeps-stop =
        search (preserves_rules, Preserves-Every (MayCall api cfg run), owned, active) depth 20

    Keeps-abandon_absent :
        (spec : IngestRunSpec) (present : Bool)
        → Keeps api cfg run (abandon_absent api run spec job present)
    unfolding MayShow abandon_absent
    Keeps-abandon_absent spec true = Preserves-return _
    Keeps-abandon_absent spec false =
        search (preserves_rules, Keeps-stop, Keeps-set_job_phase api cfg run job) depth 20

    pub Keeps-abandon : (spec : IngestRunSpec) → Keeps api cfg run (abandon api run spec job)
    unfolding abandon
    Keeps-abandon spec = Preserves-bind _ _ (Keeps-present _ _ _) (Keeps-abandon_absent spec)

    pub Keeps-cancel_job : Keeps api cfg run (reconcile_cancellation api run (some job))
    unfolding MayShow reconcile_cancellation
    Keeps-cancel_job =
        search (preserves_rules, Keeps-stop, Keeps-set_job_phase api cfg run job) depth 20

    module _ (finished : job_finished job.status ≡ true) (summary : StreamSummary)
        (collected : IsCollected api job summary) where
      MayShow-outcome :
          (o : RunOutcome)
          → summary.outcome ≡ o
          → (is_success o && is_unverified run.status.result_ref) ≡ false
          → MayShow api cfg run (phase_of_outcome o).phase
      unfolding MayShow phase_of_outcome
      MayShow-outcome run_succeeded e accepted = record {
        job = job;
        owned = owned;
        finished = finished;
        summary = summary;
        collected = collected;
        outcome = e;
        accepted = accepted;
      }
      MayShow-outcome run_partial e accepted = record {
        job = job;
        owned = owned;
        finished = finished;
        summary = summary;
        collected = collected;
        outcome = e;
        accepted = accepted;
      }
      MayShow-outcome run_interrupted e accepted = tt
      MayShow-outcome run_failed e accepted = tt
      MayShow-outcome (run_other x) e accepted = tt

      MayShow-late :
          (now : Time) (b : Bool)
          → (is_success summary.outcome && is_unverified run.status.result_ref) ≡ true
          → observation_deadline_expired (job_terminal_reference job.status) now ≡ b
          → MayShow api cfg run
              (phase_of_summary job.status run.status.result_ref now summary).phase
      unfolding MayShow phase_of_summary
      MayShow-late now true e late = rw (e, late) tt
      MayShow-late now false e late = rw (e, late) tt

      MayShow-summary :
          (now : Time) (b : Bool)
          → (is_success summary.outcome && is_unverified run.status.result_ref) ≡ b
          → MayShow api cfg run
              (phase_of_summary job.status run.status.result_ref now summary).phase
      unfolding phase_of_summary
      MayShow-summary now true e = MayShow-late now _ e refl
      MayShow-summary now false e = rw e (MayShow-outcome _ refl e)

      MayShow-finished :
          (now : Time) (b : Bool)
          → summary.run_finished ≡ b
          → MayShow api cfg run
              (phase_of_finished job.status run.status.result_ref now (some summary)).phase
      unfolding MayShow phase_of_finished
      MayShow-finished now true e = rw e (MayShow-summary now _ refl)
      MayShow-finished now false e = rw e tt

      Keeps-track_summary : Keeps api cfg run (track_with_stream api run job (some summary))
      unfolding track_with_stream phase_from_job
      Keeps-track_summary = Preserves-bind _ _ (Preserves-observe _) (λ now.
          Keeps-set_job_phase_with_stream api cfg run (some job)
            (phase_from_job job.status run.status.result_ref now (some summary)) 0 0 (some summary)
            (rw finished (MayShow-finished now _ refl)))

    MayShow-failure :
        (now : Time) (e : Error) (b c : Bool)
        → is_stream_invalid e ≡ b
        → observation_deadline_expired (job_terminal_reference job.status) now ≡ c
        → MayShow api cfg run (stream_failure_phase job.status now e).phase
    unfolding MayShow stream_failure_phase
    MayShow-failure now e true c invalid late = rw invalid tt
    MayShow-failure now e false true invalid late = rw (invalid, late) tt
    MayShow-failure now e false false invalid late = rw (invalid, late) tt

    Keeps-track_finished :
        (r : Result StreamSummary)
        → job_finished job.status ≡ true
        → OfResult (IsCollected api job) r
        → Keeps api cfg run (track_finished api run job r)
    unfolding track_finished
    Keeps-track_finished (ok summary) finished collected =
        Keeps-track_summary finished summary collected
    Keeps-track_finished (err e) finished h =
        Preserves-bind _ _ (Preserves-observe _)
          (λ now. Keeps-set_job_phase api cfg run job _ (MayShow-failure now e _ _ refl refl))

    MayShow-unfinished :
        (now : Time) (b c : Bool)
        → job_finished job.status ≡ false
        → ltb 0 job.status.active ≡ b
        → is_some job.status.start_time ≡ c
        → MayShow api cfg run (phase_from_job job.status run.status.result_ref now none).phase
    unfolding MayShow phase_from_job
    MayShow-unfinished now true c unfinished e f = rw (unfinished, e) tt
    MayShow-unfinished now false true unfinished e f = rw (unfinished, e, f) tt
    MayShow-unfinished now false false unfinished e f = rw (unfinished, e, f) tt

    Keeps-track_running :
        job_finished job.status ≡ false → Keeps api cfg run (track_with_stream api run job none)
    unfolding track_with_stream
    Keeps-track_running unfinished = Preserves-bind _ _ (Preserves-observe _) (λ now.
        Keeps-set_job_phase_with_stream api cfg run (some job) _ 0 0 none
          (MayShow-unfinished now _ _ unfinished refl refl))

    pub Keeps-track : Keeps api cfg run (track_job api run job)
    unfolding track_job
    Keeps-track =
        Preserves-if _ _ _
          (λ finished.
            Preserves-bind_yield _ _ (Preserves-attempt _ (Keeps-collect job))
              (Yields-attempt _ (Yields-collect api job))
              (λ r h. Keeps-track_finished r finished h))
          Keeps-track_running

  module _
      (cancelled : ((default_ingest_run_spec run.spec).desired_state == "Cancelled") ≡ true) where
    Keeps-cancelled : (remain : Bool) → Keeps api cfg run (cancel_without_job api run remain)
    unfolding MayShow cancel_without_job
    Keeps-cancelled true = search (preserves_rules, Keeps-set_phase api cfg run) depth 20
    Keeps-cancelled false = search (Keeps-set_phase api cfg run, cancelled) depth 20

    pub Keeps-cancel : Keeps api cfg run (reconcile_cancellation api run none)
    unfolding reconcile_cancellation
    Keeps-cancel = Preserves-bind _ _ Keeps-pods Keeps-cancelled
