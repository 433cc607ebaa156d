-- ===== src/Ingest/History.antt =====
-- What the status of an ingest run keeps from one reconcile to the next.
use tamoss.Base.{ℕ, ◌≤◌, ◌≡◌, true, false, ◌⊎◌, Option, is_some, is_none, arith}
use tamoss.Kube.{Time}
use tamoss.Ingest.Run.{IngestRunStatus, is_terminal}
use tamoss.Ingest.Stream.{StreamSummary, apply_stream_summary}
use tamoss.Ingest.Job.{Job}
use tamoss.Ingest.Phase.{PhaseReport}
use tamoss.Ingest.Api.{IngestApi}
use tamoss.Ingest.Status.{
  settled_status, demoted, with_job, with_completion, with_conditions, with_phase,
}

-- The later status forgets nothing of the earlier one: the sequence of events does not go back, a
-- start and an end stay, a run that is over has an end, a run with a Job has a start, and the recorded
-- result is not touched.
pub record Continues (job : Option Job) (s s' : IngestRunStatus) : Type 0 where
  pub sequence : s.last_event_sequence ≤ s'.last_event_sequence
  pub start : (is_none s.started_at ≡ true) ⊎ (s'.started_at ≡ s.started_at)
  pub end : (is_none s.completed_at ≡ true) ⊎ (s'.completed_at ≡ s.completed_at)
  pub ended : (is_terminal s'.phase ≡ false) ⊎ (is_some s'.completed_at ≡ true)
  pub started : (is_none job ≡ true) ⊎ (is_some s'.started_at ≡ true)
  pub result : s'.result_ref ≡ s.result_ref

module _ (api : IngestApi) where
  -- The status that a reconcile sets continues the one before, with every Job, report, stream and
  -- time: the sequence of events does not go back, a start and an end stay, a run that is over has an
  -- end, a run with a Job has a start, and the recorded result is not touched.
  pub settled_status-Continues :
      (g : ℕ) (job : Option Job) (r : PhaseReport) (i a : ℕ) (stream : Option StreamSummary)
      (now now' : Time) (s : IngestRunStatus)
      → Continues job s (settled_status api g job r i a stream now now' s)
  unfolding settled_status apply_stream_summary demoted with_job with_completion with_conditions
      with_phase
  settled_status-Continues g job r i a stream now now' s = record {
    sequence = ground arith;
    start = ground arith;
    end = ground arith;
    ended = ground arith;
    started = ground arith;
    result = ground arith;
  }
