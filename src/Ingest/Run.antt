-- ===== src/Ingest/Run.antt =====
-- operator/api/v1alpha1/ingestrun_types.go: an ingest run, its specification and its status; and
-- the Jobs and Pods of Kubernetes, with the fields that the controller uses.
use native.Mathlib.Decide.{ℕ_discrete}
use tamoss.Base.{ℕ, String, String-discrete, ◌==◌, Bool, true, false, Option, none, some, List}
use tamoss.Base.{if◌then◌else◌, nat_eq}
use tamoss.Base.Assoc.{Assoc}
use tamoss.Kube.{Time, ObjectMeta, Condition, Condition-discrete, ConditionStatus}

pub data IngestRunPhase : Type 0 where
  unset pending queued running succeeded partially_succeeded failed cancelled : IngestRunPhase

pub record IngestRunInput : Type 0 where
  pub kind : String
  pub uri : String
  pub source_ref : Option String

-- `IngestRunTAMSFlowProfile`.
pub record FlowAssignment : Type 0 where
  pub format : String
  pub index : ℕ
  pub profile_id : String
  pub profile_ref : Option String

-- The numbers are the bits of an `int32`.
pub record IngestRunOptions : Type 0 where
  pub storage_backend_ref : Option String
  pub verify : Option Bool
  pub dry_run : Bool
  pub max_inputs : ℕ
  pub concurrency : ℕ
  pub tams_flow_profiles : List FlowAssignment

-- A tag's value is the text of its JSON.
pub record FlowMetadata : Type 0 where
  pub label : String
  pub description : String
  pub tags : Assoc String

pub record IngestRunReference : Type 0 where
  pub name : String
  pub uid : String

pub record IngestRunSpec : Type 0 where
  pub tamoss_ref : String
  pub input : IngestRunInput
  pub profile : String
  pub size_class : String
  pub options : IngestRunOptions
  pub output : Option FlowMetadata
  pub desired_state : String
  pub retry_of : Option IngestRunReference

pub record IngestRunJobStatus : Type 0 where
  pub name : String
  pub uid : String

pub record ResolvedSource : Type 0 where
  pub name : String
  pub policy_digest : String

pub record ResolvedFlowProfile : Type 0 where
  pub format : String
  pub index : ℕ
  pub profile_id : String
  pub profile_ref : String

pub record IngestRunProgress : Type 0 where
  pub inputs_total : ℕ
  pub inputs_completed : ℕ
  pub inputs_succeeded : ℕ
  pub inputs_failed : ℕ
  pub bytes_uploaded : ℕ

-- A size that is not positive is zero.
pub record IngestRunResult : Type 0 where
  pub key : String
  pub sha256 : String
  pub size : ℕ
  pub media_type : String
  pub verified : Bool

pub record OutputFlow : Type 0 where
  pub id : String
  pub format : String
  pub role : String

pub record IngestRunOutput : Type 0 where
  pub root_flow_id : String
  pub source_id : String
  pub member_flows : List OutputFlow
  pub member_flows_truncated : Bool

pub record IngestRunStatus : Type 0 where
  pub observed_generation : ℕ
  pub phase : IngestRunPhase
  pub conditions : List Condition
  pub job_ref : IngestRunJobStatus
  pub resolved_source : ResolvedSource
  pub resolved_tams_flow_profiles : List ResolvedFlowProfile
  pub tamsin_run_id : String
  pub attempt : ℕ
  pub progress : IngestRunProgress
  pub last_event_sequence : ℕ
  pub result_ref : IngestRunResult
  pub output : Option IngestRunOutput
  pub started_at : Option Time
  pub completed_at : Option Time

pub record IngestRun : Type 0 where
  pub metadata : ObjectMeta
  pub spec : IngestRunSpec
  pub status : IngestRunStatus

-- `batchv1.JobCondition`; the time is absent if it is Go's zero time.
pub record JobCondition : Type 0 where
  pub type : String
  pub status : ConditionStatus
  pub last_transition_time : Option Time

-- `batchv1.JobStatus`; `active` is zero if it is not positive.
pub record JobStatus : Type 0 where
  pub active : ℕ
  pub start_time : Option Time
  pub completion_time : Option Time
  pub conditions : List JobCondition

-- `corev1.ContainerStatus`, with the end of the container if it has one: its exit code, an `int32`,
-- and when it was, with zero for Go's zero time.
pub record Terminated : Type 0 where
  pub exit_code : ℕ
  pub finished_at : Time

pub record ContainerStatus : Type 0 where
  pub name : String
  pub terminated : Option Terminated

pub record Pod : Type 0 where
  pub metadata : ObjectMeta
  pub container_statuses : List ContainerStatus

-- `reflect.DeepEqual` of what the controller compares.
pub IngestRunPhase-discrete : Discrete IngestRunPhase
IngestRunPhase-discrete = hlevel

pub IngestRunSpec-discrete : Discrete IngestRunSpec
IngestRunSpec-discrete = hlevel (String-discrete, ℕ_discrete)

pub IngestRunStatus-discrete : Discrete IngestRunStatus
IngestRunStatus-discrete = hlevel (String-discrete, ℕ_discrete, Condition-discrete)

pub ResolvedFlowProfile-discrete : Discrete (List ResolvedFlowProfile)
ResolvedFlowProfile-discrete = hlevel (String-discrete, ℕ_discrete)

-- `isIngestRunTerminal`.
unfoldable pub is_terminal : IngestRunPhase → Bool
is_terminal IngestRunPhase.succeeded = true
is_terminal IngestRunPhase.partially_succeeded = true
is_terminal IngestRunPhase.failed = true
is_terminal IngestRunPhase.cancelled = true
is_terminal p = false

-- `defaultIngestRunSpec`.
unfoldable pub default_ingest_run_spec : IngestRunSpec → IngestRunSpec
default_ingest_run_spec s = record s {
  profile = if s.profile == "" then "essence-segments@1" else s.profile;
  size_class = if s.size_class == "" then "standard" else s.size_class;
  desired_state = if s.desired_state == "" then "Running" else s.desired_state;
  options = record s.options {
    verify = elim s.options.verify [ none ↦ some true | some b ↦ some b ];
    max_inputs = if nat_eq s.options.max_inputs 0 then 1000 else s.options.max_inputs;
  };
}
