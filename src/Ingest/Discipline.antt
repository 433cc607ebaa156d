-- ===== src/Ingest/Discipline.antt =====
-- What a reconcile of an ingest run may call, and the steps that set the status of the run.
use tamoss.Base.{
  ℕ, String, ◌==◌, ◌≡◌, refl, Bool, true, false, ◌&&◌, Option, none, some, List, is_none, is_some,
  decided,
}
use tamoss.Base.Text.{trim_space}
use tamoss.Kube.{Time, ObjectMeta, ReconcileResult}
use tamoss.Effect.{Result, ok, Action}
use tamoss.Effect.Preserves.{Preserves, Every, Preserves-Every, preserves_rules}
use tamoss.Effect.Yields.{Found, Answers}
use tamoss.Config.{Config, resolve_tamoss}
use tamoss.Resources.{Tamoss}
use tamoss.Ingest.Run.{
  IngestRun, IngestRunSpec, IngestRunStatus, IngestRunPhase, ResolvedFlowProfile,
  ResolvedFlowProfile-discrete, default_ingest_run_spec, is_terminal,
}
use tamoss.Ingest.Names.{is_immutable_image_reference}
use tamoss.Ingest.Output.{validate_output, flow_metadata_json}
use tamoss.Ingest.Inputs.{ResolvedIngestInputs, inputs_error, validate_ingest_endpoint}
use tamoss.Ingest.Stream.{
  RunOutcome, run_succeeded, run_partial, StreamSummary, apply_stream_summary,
}
use tamoss.Ingest.Job.{Job}
use tamoss.Ingest.Desired.{desired_ingest_job}
use tamoss.Ingest.Phase.{PhaseReport, is_unverified, job_finished, result_required_for_phase}
use tamoss.Ingest.Api.{IngestApi, IngestCall, create_job, delete_job, patch_run_status}
use tamoss.Ingest.Status.{
  demoted, settled_status, patch_settled, set_job_phase_with_stream, set_job_phase, set_phase,
  set_static_phase,
}
use tamoss.Ingest.Gates.{
  admitted, ready_for_ingest, validate_retry_parent, resolve_storage_backend, resolve_flow_profiles,
}
use tamoss.Ingest.Track.{job_belongs_to_run}
use tamoss.Ingest.Admit.{InputResolver, with_resolved_profiles}
use tamoss.Ingest.Reconcile.{several_inputs}
use tamoss.Ingest.Evidence.{IsCollected}

module _ (api : IngestApi) where
  pub settled_status-phase :
      (g : ℕ) (job : Option Job) (r : PhaseReport) (i a : ℕ) (stream : Option StreamSummary)
      (started completed : Time) (s : IngestRunStatus)
      → (settled_status api g job r i a stream started completed s).phase
        ≡ (demoted (apply_stream_summary stream s) r).phase
  unfolding settled_status
  settled_status-phase g none r i a stream started completed s = refl
  settled_status-phase g (some job) r i a stream started completed s = refl

module _ (api : IngestApi) (cfg : Config) (run : IngestRun) where
  -- A success of the run: its Job is finished, the stream of the Job's last Pod has the outcome, and a
  -- result that is recorded has been verified.
  pub record IsEarned (o : RunOutcome) : Type 0 where
    pub job : Job
    pub owned : job_belongs_to_run api job run (default_ingest_run_spec run.spec) ≡ true
    pub finished : job_finished job.status ≡ true
    pub summary : StreamSummary
    pub collected : IsCollected api job summary
    pub outcome : summary.outcome ≡ o
    pub accepted : is_unverified run.status.result_ref ≡ false

  -- What a phase needs.
  unfoldable pub MayShow : IngestRunPhase → Type 0
  MayShow IngestRunPhase.succeeded = IsEarned run_succeeded
  MayShow IngestRunPhase.partially_succeeded = IsEarned run_partial
  MayShow IngestRunPhase.cancelled =
      ((default_ingest_run_spec run.spec).desired_state == "Cancelled") ≡ true
  MayShow p = Unit

  -- The specification with its defaults.
  abbrev pub wanted_spec : IngestRunSpec
  wanted_spec = default_ingest_run_spec run.spec

  -- The run is not over, is not cancelled, has had no Job, and has a valid output intent.
  pub record IsWanted : Type 0 where
    pub active : is_terminal run.status.phase ≡ false
    pub wanted : (wanted_spec.desired_state == "Cancelled") ≡ false
    pub first : (run.status.job_ref.name == "") ≡ true
    pub single : several_inputs api cfg wanted_spec ≡ false
    pub valid : is_some (validate_output api.json wanted_spec.output) ≡ false

  -- The instance is the run's, as some read found it, with its release resolved; it is ready, has an
  -- image pinned by its digest, and has an operator-managed API token.
  pub record IsTarget (t : Tamoss) : Type 0 where
    pub answer : Tamoss
    pub found :
        Found (λ log. api.tamoss_at log run.metadata.namespace wanted_spec.tamoss_ref) (some answer)
    pub released : resolve_tamoss cfg answer ≡ ok t
    pub ready : ready_for_ingest api cfg t ≡ true
    pub image : (trim_space t.spec.tamsin_image == "") ≡ false
    pub pinned : is_immutable_image_reference t.spec.tamsin_image ≡ true
    pub token : t.spec.api_token_generate ≡ true

  -- The checks of the retried run, of the storage backend and of the Flow Profiles have let the run
  -- through, and the profiles that they found are recorded.
  pub record IsGated (attempt_number : ℕ) (storage_id : String) (ps : List ResolvedFlowProfile)
      : Type 0 where
    pub retried :
        Answers
          (validate_retry_parent api run wanted_spec wanted_spec.retry_of)
          (admitted attempt_number)
    pub stored :
        Answers
          (resolve_storage_backend api run wanted_spec wanted_spec.options.storage_backend_ref)
          (admitted storage_id)
    pub profiled :
        Answers
          (resolve_flow_profiles api run wanted_spec wanted_spec.options.tams_flow_profiles)
          (admitted ps)
    pub recorded :
        decided (ResolvedFlowProfile-discrete run.status.resolved_tams_flow_profiles ps) ≡ true

  -- The configured resolver of inputs has answered a plan within the limits.
  pub record IsPlanned (t : Tamoss) (spec : IngestRunSpec) (resolved : ResolvedIngestInputs)
      : Type 0 where
    pub resolver : InputResolver
    pub configured : api.input_resolver ≡ some resolver
    pub at : List IngestCall
    pub answered : resolver at t spec.input spec.options.max_inputs ≡ ok resolved
    pub bounded : inputs_error api.parse_url resolved spec.options.max_inputs ≡ none

  -- The configured resolver of the endpoint has answered one that is approved.
  pub record IsReached (spec : IngestRunSpec) (endpoint : String) : Type 0 where
    pub resolver : List IngestCall → String → String → Result String
    pub configured : api.endpoint_resolver ≡ some resolver
    pub at : List IngestCall
    pub answer : String
    pub answered : resolver at run.metadata.namespace spec.tamoss_ref ≡ ok answer
    pub approved : validate_ingest_endpoint api.parse_url answer ≡ some endpoint

  -- The Job of a run that every check has let through, rendered from the run's specification with
  -- the resolved profiles and from what the checks have found, and owned by the run.
  pub record IsAdmitted (job : Job) : Type 0 where
    pub run_wanted : IsWanted
    pub t : Tamoss
    pub target : IsTarget t
    pub attempt_number : ℕ
    pub storage_id : String
    pub profiles : List ResolvedFlowProfile
    pub gated : IsGated attempt_number storage_id profiles
    pub resolved : ResolvedIngestInputs
    pub planned : IsPlanned t (with_resolved_profiles wanted_spec profiles) resolved
    pub endpoint : String
    pub reached : IsReached (with_resolved_profiles wanted_spec profiles) endpoint
    pub flow_metadata : String
    pub encoded :
        flow_metadata_json api.json (with_resolved_profiles wanted_spec profiles).output
        ≡ ok flow_metadata
    pub metadata : ObjectMeta
    pub owner :
        api.set_controller_reference run.metadata
          (desired_ingest_job api.sha256_hex run
            (with_resolved_profiles wanted_spec profiles)
            t
            endpoint
            t.spec.tamsin_image
            storage_id
            flow_metadata
            resolved).metadata
        ≡ ok metadata
    pub is_job :
        job
        ≡ record (desired_ingest_job api.sha256_hex run
            (with_resolved_profiles wanted_spec profiles)
            t
            endpoint
            t.spec.tamsin_image
            storage_id
            flow_metadata
            resolved) { metadata = metadata }

  -- A Job is deleted only if it is the run's, the run is not over, and the Job is not being deleted.
  -- The status is patched of this run only.
  unfoldable pub MayCall : IngestCall → List IngestCall → Type 0
  MayCall (create_job job) log = IsAdmitted job
  MayCall (delete_job job) log =
      (is_terminal run.status.phase ≡ false)
      × (job_belongs_to_run api job run (default_ingest_run_spec run.spec) ≡ true)
      × (is_none job.metadata.deletion_timestamp ≡ true)
  MayCall (patch_run_status r) log =
      (r.metadata ≡ run.metadata) × (r.spec ≡ run.spec) × MayShow r.status.phase
  MayCall c log = Unit

  abbrev pub Keeps : {A : Type 0} → Action IngestCall A → Type 0
  Keeps m = Preserves (Every MayCall) m

  -- A demoted phase needs nothing.
  MayShow-demoted :
      (b : Bool) (r : PhaseReport) (s : IngestRunStatus)
      → MayShow r.phase
      → (result_required_for_phase r.phase && is_unverified s.result_ref) ≡ b
      → MayShow (demoted s r).phase
  unfolding MayShow demoted
  MayShow-demoted true r s h e = rw e tt
  MayShow-demoted false r s h e = rw e h

  Keeps-patch :
      (status : IngestRunStatus) (result : ReconcileResult)
      → MayShow status.phase
      → Keeps (patch_settled api run status result)
  unfolding MayCall patch_settled
  Keeps-patch status result h = search (preserves_rules, Preserves-Every MayCall, h) depth 20

  MayShow-settled :
      (job : Option Job) (r : PhaseReport) (i a : ℕ) (stream : Option StreamSummary)
      (started completed : Time)
      → MayShow r.phase
      → MayShow
          (settled_status api run.metadata.generation job r i a stream started completed
            run.status).phase
  MayShow-settled job r i a none started completed h =
      rw (settled_status-phase api _ job r i a none started completed run.status)
        (MayShow-demoted _ r _ h refl)
  MayShow-settled job r i a (some stream) started completed h =
      rw (settled_status-phase api _ job r i a (some stream) started completed run.status)
        (MayShow-demoted _ r _ h refl)

  pub Keeps-set_job_phase_with_stream :
      (job : Option Job) (r : PhaseReport) (i a : ℕ) (stream : Option StreamSummary)
      → MayShow r.phase
      → Keeps (set_job_phase_with_stream api run job r i a stream)
  unfolding set_job_phase_with_stream
  Keeps-set_job_phase_with_stream job r i a stream h =
      search (preserves_rules, Keeps-patch, MayShow-settled job r i a stream _ _ h) depth 20

  pub Keeps-set_job_phase :
      (job : Job) (r : PhaseReport) → MayShow r.phase → Keeps (set_job_phase api run job r)
  unfolding set_job_phase
  Keeps-set_job_phase job r h = Keeps-set_job_phase_with_stream (some job) r 0 0 none h

  pub Keeps-set_phase : (r : PhaseReport) → MayShow r.phase → Keeps (set_phase api run r)
  unfolding set_phase
  Keeps-set_phase r h = Keeps-set_job_phase_with_stream none r 0 0 none h

  pub Keeps-set_static_phase :
      (r : PhaseReport) → MayShow r.phase → Keeps (set_static_phase api run r)
  unfolding set_static_phase
  Keeps-set_static_phase r h = search (preserves_rules, Keeps-set_phase r h) depth 20
