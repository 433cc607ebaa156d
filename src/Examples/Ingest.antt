-- ===== src/Examples/Ingest.antt =====
-- An ingest run whose Job has finished: its Pod has written the events of a success.
use mathlib.Core.Logic.{◌↔◌}
use tamoss.Base.{
  ℕ, String, ◌≡◌, ◌≤◌, ◌<◌, refl, Bool, true, false, Option, none, some, List, [], ◌∷◌, All, arith,
  is_some, decided_of,
}
use tamoss.Base.Text.Bytes.{byte_length}
use tamoss.Kube.{condition_true}
use tamoss.Effect.{Result, ok}
use tamoss.Examples.Cluster.{instance, store, named, first_of, put_condition, absent}
use tamoss.Ingest.Run.{
  IngestRun, IngestRunSpec, IngestRunStatus, IngestRunPhase, JobStatus, Pod, IngestRunOutput,
  default_ingest_run_spec, is_terminal,
}
use tamoss.Ingest.Names.{ingest_job_name, ingest_run_selector_value, ingest_job_name-bounded}
use tamoss.Ingest.Output.{json_string}
use tamoss.Ingest.Inputs.{ResolvedIngestInputs, Url, inputs_error}
use tamoss.Ingest.Stream.{
  StreamState, Finished, InputState, PodLog, run_succeeded, run_partial, decode_ingest_stream,
  summary_of, output_from_state, scan_error,
}
use tamoss.Ingest.Job.{Job}
use tamoss.Ingest.Desired.{desired_ingest_job}
use tamoss.Ingest.Phase.{
  job_finished, observation_deadline_expired, job_terminal_reference, phase_from_job, report,
  stream_failure_phase,
}
use tamoss.Ingest.Api.{IngestApi}
use tamoss.Ingest.Status.{settled_status}
use tamoss.Ingest.Gates.{check_parent, configuration_matches}
use tamoss.Ingest.Pods.{consider_pods}
use tamoss.Ingest.Track.{track_job}
use tamoss.Ingest.Ending.{
  IsAccepted, ReportsEnd, phase_from_job-succeeded_iff, track_job-ReportsEnd,
}
use tamoss.Ingest.History.{Continues, settled_status-Continues}
use tamoss.Ingest.Plans.{IsPlan, inputs_error_iff}
use tamoss.Ingest.LastPod.{IsFrom, IsPodCovered, consider_pods-last}
use tamoss.Ingest.StreamLaws.{IsOutputOf, output_from_state-IsOutputOf, stream_failure_phase-decode}
use tamoss.Ingest.Retries.{IsRetry, check_parent-IsRetry}

abbrev run_spec : IngestRunSpec
run_spec = record {
  tamoss_ref = "tamoss";
  input = record { kind = "S3"; uri = "s3://media/a.mxf"; source_ref = none };
  profile = "";
  size_class = "";
  options = record {
    storage_backend_ref = none;
    verify = none;
    dry_run = false;
    max_inputs = 1;
    concurrency = 0;
    tams_flow_profiles = [];
  };
  output = none;
  desired_state = "";
  retry_of = none;
}

abbrev status_with : IngestRunPhase → IngestRunStatus
status_with phase = record {
  observed_generation = 1;
  phase = phase;
  conditions = [];
  job_ref = record { name = ""; uid = "" };
  resolved_source = record { name = ""; policy_digest = "" };
  resolved_tams_flow_profiles = [];
  tamsin_run_id = "";
  attempt = 1;
  progress = record {
    inputs_total = 1;
    inputs_completed = 0;
    inputs_succeeded = 0;
    inputs_failed = 0;
    bytes_uploaded = 0;
  };
  last_event_sequence = 3;
  result_ref = record { key = ""; sha256 = ""; size = 0; media_type = ""; verified = false };
  output = none;
  started_at = some 100;
  completed_at = none;
}

abbrev run_in : IngestRunPhase → IngestRun
run_in phase = record {
  metadata = named "nightly" "r1";
  spec = run_spec;
  status = status_with phase;
}

abbrev finished_status : JobStatus
finished_status = record {
  active = 0;
  start_time = some 100;
  completion_time = some 1000;
  conditions =
      record { type = "Complete"; status = condition_true; last_transition_time = some 1000 } ∷ [];
}

abbrev plan : ResolvedIngestInputs
plan = record {
  selectors = "s3://media/a.mxf" ∷ [];
  expected_inputs = 1;
  source_name = "archive";
  policy_digest = "0123456789abcdef0123456789abcdef0123456789abcdef0123456789abcdef";
  credential_secret_name = "";
  credential_kind = "";
  s3_endpoint = "";
  s3_region = "";
  s3_path_style = false;
}

abbrev hash : String → String
hash s = "0123456789abcdef0123456789abcdef0123456789abcdef0123456789abcdef"

abbrev finished_job : Job
finished_job =
    record (desired_ingest_job hash (run_in IngestRunPhase.running) run_spec instance "https://tams"
      "tamsin" "" "" plan) {
        status = finished_status;
        metadata = record (named "tamsin-nightly" "j1") {
          labels =
              ("tamoss.livewyer.io/ingest-run", "nightly")
              ∷ ("tamoss.livewyer.io/tamoss", "tamoss")
              ∷ [];
        };
      }

abbrev input : InputState
input = record {
  root_flow_id = some "root";
  flow_results =
      ("root", record { source_id = "source"; role = "" })
      ∷ ("audio", record { source_id = "source"; role = "" })
      ∷ [];
  planned_flows = ("audio", record { format = "audio"; role = "main" }) ∷ [];
}

abbrev finished_event : Finished
finished_event = record {
  outcome = run_succeeded;
  exit_code = 0;
  total = 1;
  succeeded = 1;
  failed = 0;
  bytes_uploaded = 4096;
}

abbrev stream_state : StreamState
stream_state = record {
  run_id = "run";
  next_sequence = 10;
  finished = some finished_event;
  inputs = (0, input) ∷ [];
}

abbrev pod_ended : String → ℕ → Pod
pod_ended name time = record {
  metadata = record (named name "p1") {
    owner_references =
        record {
          api_version = "batch/v1";
          kind = "Job";
          name = "tamsin-nightly";
          uid = "j1";
          controller = true;
        }
        ∷ [];
  };
  container_statuses =
      record { name = "tamsin"; terminated = some (record { exit_code = 0; finished_at = time }) }
      ∷ [];
}

abbrev pods : List Pod
pods = pod_ended "first" 900 ∷ pod_ended "second" 990 ∷ []

abbrev location : String → Result Url
location s = ok (record {
  scheme = "s3";
  has_user = false;
  host = "media";
  path = "/a.mxf";
  raw_query = "";
  fragment = "";
  text = s;
})

abbrev ingest_api : IngestApi
ingest_api = record {
  run_at = λ log ns n. ok (run_in IngestRunPhase.failed);
  job_at = λ log ns n. ok finished_job;
  tamoss_at = λ log ns n. ok instance;
  storage_backend_at = λ log ns n. ok store;
  flow_profile_at = λ log ns n. absent;
  pods_at = λ log ns key value. ok pods;
  live_at = none;
  pod_log = some (λ log ns pod container. ok (record { text = "{}"; read_error = false }));
  input_resolver = some (λ log t i n. ok plan);
  endpoint_resolver = some (λ log ns n. ok "https://tams");
  created_job = λ log job. ok job;
  outcome = λ log c. ok tt;
  now = λ log. 5000;
  is_controlled_by = λ obj owner. true;
  set_controller_reference = λ owner obj. ok obj;
  find_status_condition = λ cs t. first_of t cs;
  set_status_condition = put_condition;
  deterministic_id = λ ns n. "id";
  sha256_hex = hash;
  parse_url = location;
  json = record {
    unmarshal = λ s. ok json_string;
    marshal = λ fields. ok "{}";
    to_lower = λ s. s;
    sorted = λ tags. tags;
  };
  declares_protocol = λ line. true;
  reduce = λ events. ok stream_state;
}

abbrev reconciled : IngestRun
reconciled = run_in IngestRunPhase.running

track_job-ReportsEnd_example : ReportsEnd (track_job ingest_api reconciled finished_job []).1
unfolding is_terminal job_finished observation_deadline_expired job_terminal_reference
track_job-ReportsEnd_example =
    track_job-ReportsEnd ingest_api reconciled refl finished_job refl (λ log. refl) []

phase_from_job-succeeded_iff_example :
    (((phase_from_job finished_status
          (status_with IngestRunPhase.running).result_ref
          5000
          (some (summary_of stream_state finished_event))).phase
        ≡ IngestRunPhase.succeeded)
      ↔ IsAccepted run_succeeded finished_status
          (status_with IngestRunPhase.running).result_ref
          (some (summary_of stream_state finished_event)))
    × (((phase_from_job finished_status
            (status_with IngestRunPhase.running).result_ref
            5000
            (some (summary_of stream_state finished_event))).phase
          ≡ IngestRunPhase.partially_succeeded)
        ↔ IsAccepted run_partial finished_status
            (status_with IngestRunPhase.running).result_ref
            (some (summary_of stream_state finished_event)))
phase_from_job-succeeded_iff_example =
    phase_from_job-succeeded_iff finished_status (status_with IngestRunPhase.running).result_ref
      5000 (some (summary_of stream_state finished_event))

settled_status-Continues_example :
    Continues (some finished_job) (status_with IngestRunPhase.running) (
      settled_status ingest_api 1
        (some finished_job)
        (report IngestRunPhase.succeeded "IngestSucceeded" "" false)
        0
        0
        (some (summary_of stream_state finished_event))
        5000
        5000
        (status_with IngestRunPhase.running))
settled_status-Continues_example =
    settled_status-Continues ingest_api 1 (some finished_job)
      (report IngestRunPhase.succeeded "IngestSucceeded" "" false) 0 0
      (some (summary_of stream_state finished_event)) 5000 5000 (status_with IngestRunPhase.running)

inputs_error_iff_example : (inputs_error location plan 1 ≡ none) ↔ IsPlan location plan 1
inputs_error_iff_example = inputs_error_iff location plan 1

consider_pods-last_example :
    IsFrom "j1" pods (consider_pods "j1" none pods)
    × All (IsPodCovered "j1" (consider_pods "j1" none pods)) pods
consider_pods-last_example = consider_pods-last "j1" pods

-- A log whose reader has stopped.
abbrev broken_log : PodLog
broken_log = record { text = "{}"; read_error = true }

stream_failure_phase-decode_example :
    (stream_failure_phase finished_status 1001 scan_error).phase ≡ IngestRunPhase.failed
unfolding decode_ingest_stream tamoss.Base.Text.Bytes.take_bytes tamoss.Base.Text.Bytes.utf8_size
stream_failure_phase-decode_example =
    stream_failure_phase-decode (λ line. true) (λ events. ok stream_state) broken_log
      finished_status 1001 scan_error refl

abbrev shown_output : IngestRunOutput
shown_output = record {
  root_flow_id = "root";
  source_id = "source";
  member_flows = record { id = "audio"; format = "audio"; role = "main" } ∷ [];
  member_flows_truncated = false;
}

output_from_state-IsOutputOf_example : IsOutputOf stream_state shown_output
unfolding output_from_state
output_from_state-IsOutputOf_example = output_from_state-IsOutputOf stream_state shown_output refl

abbrev retry_spec : IngestRunSpec
retry_spec = record (default_ingest_run_spec run_spec) {
  retry_of = some (record { name = "nightly"; uid = "r1" });
}

same_configuration : configuration_matches (default_ingest_run_spec run_spec) retry_spec ≡ true
unfolding configuration_matches default_ingest_run_spec
same_configuration = decided_of _ refl

check_parent-IsRetry_example :
    IsRetry retry_spec (record { name = "nightly"; uid = "r1" }) (run_in IngestRunPhase.failed) 2
unfolding check_parent
check_parent-IsRetry_example =
    check_parent-IsRetry retry_spec (record { name = "nightly"; uid = "r1" })
      (run_in IngestRunPhase.failed) 2 (omega arith) (rw same_configuration refl)

ingest_job_name-bounded_example :
    (byte_length (ingest_job_name hash "nightly") ≤ 63)
    × (byte_length (ingest_run_selector_value hash "nightly") ≤ 63)
ingest_job_name-bounded_example = ingest_job_name-bounded hash "nightly"
