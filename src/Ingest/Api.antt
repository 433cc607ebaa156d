-- ===== src/Ingest/Api.antt =====
-- The cluster as the controller of the ingest runs sees it: the calls that it makes, and what the API
-- server, the resolvers, the logs, the clock and the libraries answer.
use tamoss.Base.{ℕ, String, Bool, Option, List}
use tamoss.Kube.{Time, ObjectMeta, Condition}
use tamoss.Effect.{Result, Action, call, observe}
use tamoss.Resources.{Tamoss}
use tamoss.Resources.Storage.{StorageBackend}
use tamoss.Ingest.Run.{IngestRun, IngestRunInput, Pod}
use tamoss.Ingest.Output.{Json}
use tamoss.Ingest.Inputs.{Url, ResolvedIngestInputs}
use tamoss.Ingest.Stream.{PodLog, StreamState}
use tamoss.Ingest.Job.{Job}

-- operator/api/v1alpha1/flowprofile_types.go: what the ingest runs read of a profile.
pub record FlowProfile : Type 0 where
  pub metadata : ObjectMeta
  pub tamoss_ref : String
  pub observed_generation : ℕ
  pub profile_id : String
  pub resolved_format : String
  pub conditions : List Condition

pub data IngestCall : Type 0 where
  read read_live : String → String → String → IngestCall
  list_pods : String → String → String → IngestCall
  read_log : String → String → String → IngestCall
  resolve_inputs : String → String → IngestCall
  resolve_endpoint : String → String → IngestCall
  create_job : Job → IngestCall
  delete_job : Job → IngestCall
  patch_run_status : IngestRun → IngestCall

-- The fields that are an `Option` may be nil in the reconciler.
pub record IngestApi : Type 0 where
  pub run_at : List IngestCall → String → String → Result IngestRun
  pub job_at : List IngestCall → String → String → Result Job
  pub tamoss_at : List IngestCall → String → String → Result Tamoss
  pub storage_backend_at : List IngestCall → String → String → Result StorageBackend
  pub flow_profile_at : List IngestCall → String → String → Result FlowProfile
  pub pods_at : List IngestCall → String → String → String → Result (List Pod)
  -- `APIReader.Get` of a kind, whose object is not looked at.
  pub live_at : Option (List IngestCall → String → String → String → Result (Unit {0}))
  pub pod_log : Option (List IngestCall → String → String → String → Result PodLog)
  pub input_resolver :
      Option (List IngestCall → Tamoss → IngestRunInput → ℕ → Result ResolvedIngestInputs)
  pub endpoint_resolver : Option (List IngestCall → String → String → Result String)
  pub created_job : List IngestCall → Job → Result Job
  pub outcome : List IngestCall → IngestCall → Result (Unit {0})
  pub now : List IngestCall → Time
  pub is_controlled_by : ObjectMeta → ObjectMeta → Bool
  pub set_controller_reference : ObjectMeta → ObjectMeta → Result ObjectMeta
  pub find_status_condition : List Condition → String → Option Condition
  pub set_status_condition : List Condition → Condition → List Condition
  pub deterministic_id : String → String → String
  pub sha256_hex : String → String
  pub parse_url : String → Result Url
  pub json : Json
  pub declares_protocol : String → Bool
  pub reduce : String → Result StreamState

module _ (api : IngestApi) where
  abbrev pub get_run : String → String → Action IngestCall IngestRun
  get_run ns n = call (read "IngestRun" ns n) (λ log. api.run_at log ns n)

  abbrev pub get_job : String → String → Action IngestCall Job
  get_job ns n = call (read "Job" ns n) (λ log. api.job_at log ns n)

  abbrev pub get_instance : String → String → Action IngestCall Tamoss
  get_instance ns n = call (read "Tamoss" ns n) (λ log. api.tamoss_at log ns n)

  abbrev pub get_backend : String → String → Action IngestCall StorageBackend
  get_backend ns n = call (read "StorageBackend" ns n) (λ log. api.storage_backend_at log ns n)

  abbrev pub get_flow_profile : String → String → Action IngestCall FlowProfile
  get_flow_profile ns n = call (read "FlowProfile" ns n) (λ log. api.flow_profile_at log ns n)

  abbrev pub get_run_pods : String → String → String → Action IngestCall (List Pod)
  get_run_pods ns key value = call (list_pods ns key value) (λ log. api.pods_at log ns key value)

  abbrev pub submit : IngestCall → Action IngestCall (Unit {0})
  submit c = call c (λ log. api.outcome log c)

  abbrev pub send_job : Job → Action IngestCall Job
  send_job job = call (create_job job) (λ log. api.created_job log job)

  abbrev pub clock : Action IngestCall Time
  clock = observe api.now
