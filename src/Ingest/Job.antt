-- ===== src/Ingest/Job.antt =====
-- The Job that runs TAMSin, as the controller renders it (desiredIngestJob in
-- ingestrun_controller.go) and as it finds it.
use tamoss.Base.{ℕ, String, ◌==◌, Bool, true, false, List, [], ◌∷◌, ltb, nat_eq, if◌then◌else◌}
use tamoss.Base.Assoc.{Assoc}
use tamoss.Base.Int32.{decimal}
use tamoss.Base.Sorting.{sort}
use tamoss.Base.Text.{concat}
use tamoss.Kube.{ObjectMeta}
use tamoss.Ingest.Run.{IngestRunOptions, FlowAssignment, JobStatus}

-- `ingestJobResources`, with its quantities as texts.
pub record JobResources : Type 0 where
  pub concurrency : ℕ
  pub staging_byte_budget : String
  pub temporary_size : String
  pub request_cpu : String
  pub request_memory : String
  pub request_storage : String
  pub limit_cpu : String
  pub limit_memory : String
  pub limit_storage : String

-- `resourcesForIngestRun`, with `ingestResources`.
unfoldable pub resources_for_ingest_run : String → JobResources
resources_for_ingest_run size =
    if size == "small"
    then record {
      concurrency = 1;
      staging_byte_budget = "4GiB";
      temporary_size = "6Gi";
      request_cpu = "250m";
      request_memory = "1Gi";
      request_storage = "8Gi";
      limit_cpu = "2";
      limit_memory = "2Gi";
      limit_storage = "10Gi";
    }
    else if size == "large"
    then record {
      concurrency = 8;
      staging_byte_budget = "80GiB";
      temporary_size = "100Gi";
      request_cpu = "2";
      request_memory = "4Gi";
      request_storage = "110Gi";
      limit_cpu = "8";
      limit_memory = "12Gi";
      limit_storage = "120Gi";
    }
    else record {
      concurrency = 4;
      staging_byte_budget = "16GiB";
      temporary_size = "20Gi";
      request_cpu = "1";
      request_memory = "2Gi";
      request_storage = "24Gi";
      limit_cpu = "4";
      limit_memory = "6Gi";
      limit_storage = "30Gi";
    }

-- A variable of the container: a value, or the key of a Secret.
pub data EnvVar : Type 0 where
  env_value : String → String → EnvVar
  env_secret : String → String → String → Bool → EnvVar

-- A volume with its mount: an empty directory of a size, or an annotation as a file.
pub data Volume : Type 0 where
  empty_dir : String → String → String → Volume
  downward_annotation : String → String → String → String → Volume

-- `batchv1.JobSpec` with the Pod template; the settings that no input changes are the fields from
-- `backoff_limit` on.
pub record JobSpec : Type 0 where
  pub labels : Assoc String
  pub annotations : Assoc String
  pub container_name : String
  pub image : String
  pub args : List String
  pub env : List EnvVar
  pub resources : JobResources
  pub volumes : List Volume
  pub image_pull_secrets : List String
  pub backoff_limit : ℕ
  pub active_deadline_seconds : ℕ
  pub ttl_seconds_after_finished : ℕ
  pub termination_grace_period_seconds : ℕ
  pub automount_service_account_token : Bool
  pub enable_service_links : Bool
  pub restart_policy : String
  pub image_pull_policy : String
  pub run_as_non_root : Bool
  pub run_as_user : ℕ
  pub run_as_group : ℕ
  pub seccomp_profile : String
  pub allow_privilege_escalation : Bool
  pub read_only_root_filesystem : Bool
  pub dropped_capabilities : List String

pub record Job : Type 0 where
  pub metadata : ObjectMeta
  pub spec : JobSpec
  pub status : JobStatus

-- `ingestVerifyMode`.
unfoldable pub ingest_verify_mode : Bool → String
ingest_verify_mode true = "auto"
ingest_verify_mode false = "none"

-- `formatOrder[format]`, zero for a missing key.
unfoldable pub format_order : String → ℕ
format_order format =
    if format == "audio"
    then 1
    else if format == "image"
    then 2
    else if format == "data"
    then 3
    else 0

unfoldable pub assignment_less : FlowAssignment → FlowAssignment → Bool
unfolding format_order
assignment_less l r =
    if nat_eq (format_order l.format) (format_order r.format)
    then ltb l.index r.index
    else ltb (format_order l.format) (format_order r.format)

abbrev flow_profile_argument : FlowAssignment → String
flow_profile_argument a = concat (a.format ∷ ":" ∷ decimal a.index ∷ "=" ∷ a.profile_id ∷ [])

unfoldable pub flow_profile_arguments : List FlowAssignment → List String
unfolding decimal
flow_profile_arguments [] = []
flow_profile_arguments (a ∷ rest) =
    "--tams-flow-profile" ∷ flow_profile_argument a ∷ flow_profile_arguments rest

-- `tamsFlowProfileArguments`.
unfoldable pub tams_flow_profile_arguments : List FlowAssignment → List String
unfolding assignment_less sort flow_profile_arguments
tams_flow_profile_arguments assignments = flow_profile_arguments (sort assignment_less assignments)

-- `sourceSecretEnv`.
abbrev pub source_secret_env : String → String → Bool → EnvVar
source_secret_env key secret optional = env_secret key secret key optional

abbrev pub job_concurrency : IngestRunOptions → JobResources → ℕ
job_concurrency o r = if nat_eq o.concurrency 0 then r.concurrency else o.concurrency

unfoldable pub input_arguments : List String → List String
input_arguments [] = []
input_arguments (s ∷ ss) = "--input" ∷ s ∷ input_arguments ss
