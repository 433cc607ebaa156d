-- ===== src/Ingest/Phase.antt =====
-- The phase of an ingest run from what is known of its Job (ingestrun_controller.go): pure decisions
-- on the Job's conditions, the recorded result, the summary of the event stream and the time.
use Prim.Native.Nat.{◌-◌}
use mathlib.Core.Bool.{not}
use tamoss.Base.{
  ℕ, String, ◌==◌, Bool, true, false, ◌&&◌, ◌||◌, Option, none, some, is_some, List, [], ◌∷◌, any,
  ltb, nat_eq, if◌then◌else◌,
}
use tamoss.Base.Text.{trim_space}
use tamoss.Base.Text.Bytes.{byte_length, all_chars, is_lower_hex}
use tamoss.Kube.{Message, literal, Time, Error, cause, sentinel, ConditionStatus, condition_true}
use tamoss.Ingest.Run.{IngestRunPhase, IngestRunResult, JobCondition, JobStatus}
use tamoss.Ingest.Stream.{
  RunOutcome, run_succeeded, run_partial, run_interrupted, run_failed, StreamSummary,
}

-- What the status is to say: the phase, the reason, the message, and whether the run progresses.
pub record PhaseReport : Type 0 where
  pub phase : IngestRunPhase
  pub reason : String
  pub message : Message
  pub progressing : Bool

abbrev pub report : IngestRunPhase → String → String → Bool → PhaseReport
report phase reason message progressing = record {
  phase = phase;
  reason = reason;
  message = literal message;
  progressing = progressing;
}

abbrev pub is_true_status : ConditionStatus → Bool
is_true_status condition_true = true
is_true_status s = false

-- A condition that says that the Job is complete or has failed.
abbrev pub ends_job : JobCondition → Bool
ends_job c = is_true_status c.status && (c.type == "Complete" || c.type == "Failed")

-- `ingestJobFinished`.
unfoldable pub job_finished : JobStatus → Bool
job_finished s = any ends_job s.conditions

unfoldable pub ending_transition : List JobCondition → Option Time
ending_transition [] = none
ending_transition (c ∷ cs) =
    let rest = ending_transition cs in if ends_job c then c.last_transition_time else rest

-- `ingestJobTerminalReference`; none is the zero time.
unfoldable pub job_terminal_reference : JobStatus → Option Time
unfolding ending_transition
job_terminal_reference s = elim s.completion_time [
  | some t ↦ some t
  | none ↦ ending_transition s.conditions
]

-- `ingestTerminalObservationDeadline`, in seconds.
abbrev pub terminal_observation_deadline : ℕ
terminal_observation_deadline = 900

-- `ingestObservationDeadlineExpired`.
unfoldable pub observation_deadline_expired : Option Time → Time → Bool
observation_deadline_expired none now = false
observation_deadline_expired (some reference) now =
    ltb terminal_observation_deadline (now - reference)

-- `errors.Is(err, errIngestStreamInvalid)`.
abbrev pub is_invalid_cause : Error → Bool
is_invalid_cause (sentinel s) = s == "TAMSin event stream is invalid"
is_invalid_cause e = false

unfoldable pub is_stream_invalid : Error → Bool
unfolding cause
is_stream_invalid e = is_invalid_cause (cause e)

-- `ingestStreamFailurePhase`, with the `progressing` of its call.
unfoldable pub stream_failure_phase : JobStatus → Time → Error → PhaseReport
unfolding is_stream_invalid observation_deadline_expired job_terminal_reference
stream_failure_phase s now e =
    if is_stream_invalid e
    then report IngestRunPhase.failed "IngestProtocolInvalid"
        "TAMSin produced an invalid terminal event stream" false
    else if observation_deadline_expired (job_terminal_reference s) now
    then report IngestRunPhase.failed "IngestResultUnavailable"
        "The terminal TAMSin event stream was not available within the observation deadline" false
    else report IngestRunPhase.running "IngestResultPending"
        "The Job is terminal, but its TAMSin event stream is not yet available" false

-- `ingestResultRequiredForPhase`.
unfoldable pub result_required_for_phase : IngestRunPhase → Bool
result_required_for_phase IngestRunPhase.succeeded = true
result_required_for_phase IngestRunPhase.partially_succeeded = true
result_required_for_phase p = false

-- `ingestResultVerificationRequired`.
unfoldable pub result_verification_required : IngestRunResult → Bool
unfolding trim_space
result_verification_required r = not (trim_space r.key == "")

-- `isDigestVerifiedIngestResult`.
unfoldable pub is_digest_verified : IngestRunResult → Bool
unfolding trim_space byte_length all_chars
is_digest_verified r =
    r.verified
    && not (trim_space r.key == "")
    && ltb 0 r.size
    && not (trim_space r.media_type == "")
    && nat_eq (byte_length r.sha256) 64
    && all_chars is_lower_hex r.sha256

-- A recorded result that has not been verified.
unfoldable pub is_unverified : IngestRunResult → Bool
unfolding result_verification_required is_digest_verified
is_unverified r = result_verification_required r && not (is_digest_verified r)

abbrev pub is_success : RunOutcome → Bool
is_success run_succeeded = true
is_success run_partial = true
is_success o = false

-- The switch on the outcome.
unfoldable pub phase_of_outcome : RunOutcome → PhaseReport
phase_of_outcome run_succeeded =
    report IngestRunPhase.succeeded "IngestSucceeded" "TAMSin completed the ingest run" false
phase_of_outcome run_partial =
    report IngestRunPhase.partially_succeeded "IngestPartiallySucceeded"
      "TAMSin completed with both successful and failed inputs" false
phase_of_outcome run_interrupted =
    report IngestRunPhase.failed "IngestInterrupted"
      "TAMSin was interrupted before the ingest completed" false
phase_of_outcome run_failed =
    report IngestRunPhase.failed "IngestFailed" "TAMSin reported an ingest failure" false
phase_of_outcome o =
    report IngestRunPhase.failed "IngestProtocolInvalid"
      "TAMSin reported an unknown terminal outcome" false

unfoldable pub phase_of_summary : JobStatus → IngestRunResult → Time → StreamSummary → PhaseReport
unfolding is_unverified observation_deadline_expired job_terminal_reference phase_of_outcome
phase_of_summary s result now summary =
    if is_success summary.outcome && is_unverified result
    then (if observation_deadline_expired (job_terminal_reference s) now
        then report IngestRunPhase.failed "ResultVerificationTimeout"
            "A durable result was recorded but did not pass digest verification within the observation deadline"
            false
        else report IngestRunPhase.running "ResultVerificationPending"
            "A durable result was recorded but has not passed digest verification" false)
    else phase_of_outcome summary.outcome

unfoldable pub phase_of_finished :
    JobStatus → IngestRunResult → Time → Option StreamSummary → PhaseReport
unfolding phase_of_summary
phase_of_finished s result now none =
    report IngestRunPhase.running "IngestResultPending"
      "The Job is terminal, but its TAMSin event stream is not yet available" false
phase_of_finished s result now (some summary) =
    if summary.run_finished
    then phase_of_summary s result now summary
    else report IngestRunPhase.running "IngestResultPending"
        "The Job is terminal, but its TAMSin event stream is not yet available" false

-- `ingestPhaseFromJob`.
unfoldable pub phase_from_job :
    JobStatus → IngestRunResult → Time → Option StreamSummary → PhaseReport
unfolding job_finished phase_of_finished
phase_from_job s result now stream =
    if job_finished s
    then phase_of_finished s result now stream
    else if ltb 0 s.active
    then report IngestRunPhase.running "IngestRunning" "TAMSin is processing media" true
    else if is_some s.start_time
    then report IngestRunPhase.running "JobStarting" "The TAMSin Pod is starting" true
    else report IngestRunPhase.queued "JobQueued" "The TAMSin Job is waiting to be scheduled" true
