-- ===== src/Ingest/Admit.antt =====
-- The admission of an ingest run: the part of `Reconcile` in ingestrun_controller.go from the resolved
-- instance to the creation of the Job, with a definition for what follows each answer.
use mathlib.Core.Bool.{not}
use tamoss.Base.{
  ℕ, String, ◌==◌, Bool, true, false, Option, none, some, List, [], ◌∷◌, decided, if◌then◌else◌,
}
use tamoss.Base.Text.{trim_space}
use tamoss.Kube.{
  Message, literal, error_text, already_exists, Error, ObjectMeta, ReconcileResult, requeue,
}
use tamoss.Effect.{Result, ok, err, Action, return, throw, lift, attempt, call, ◌>>=◌, ◌>>◌}
use tamoss.Config.{Config, release_error_reason}
use tamoss.Resources.{Tamoss}
use tamoss.Ingest.Run.{
  IngestRun, IngestRunInput, IngestRunSpec, IngestRunPhase, FlowAssignment, ResolvedFlowProfile,
  ResolvedFlowProfile-discrete,
}
use tamoss.Ingest.Names.{is_immutable_image_reference}
use tamoss.Ingest.Output.{flow_metadata_json}
use tamoss.Ingest.Inputs.{ResolvedIngestInputs, inputs_error, validate_ingest_endpoint}
use tamoss.Ingest.Job.{Job}
use tamoss.Ingest.Desired.{desired_ingest_job}
use tamoss.Ingest.Phase.{report}
use tamoss.Ingest.Api.{
  IngestApi, IngestCall, resolve_inputs, resolve_endpoint, patch_run_status, submit, send_job,
}
use tamoss.Ingest.Status.{set_job_phase_with_stream, set_phase, set_static_phase}
use tamoss.Ingest.Gates.{
  Gate, admitted, refused, ready_for_ingest, validate_retry_parent, resolve_storage_backend,
  resolve_flow_profiles,
}
use tamoss.Ingest.Track.{pending}

abbrev pub InputResolver : Type 0
InputResolver = List IngestCall → Tamoss → IngestRunInput → ℕ → Result ResolvedIngestInputs

-- The assignments with the resolved identifiers.
unfoldable pub with_profiles : List FlowAssignment → List ResolvedFlowProfile → List FlowAssignment
with_profiles [] ps = []
with_profiles (a ∷ rest) [] = a ∷ rest
with_profiles (a ∷ rest) (p ∷ ps) =
    record a { profile_id = p.profile_id; profile_ref = none } ∷ with_profiles rest ps

unfoldable pub with_resolved_profiles : IngestRunSpec → List ResolvedFlowProfile → IngestRunSpec
unfolding with_profiles
with_resolved_profiles spec ps = record spec {
  options = record spec.options {
    tams_flow_profiles = with_profiles spec.options.tams_flow_profiles ps;
  };
}

module _ (api : IngestApi) (run : IngestRun) where
  abbrev wait : String → Message → Action IngestCall ReconcileResult
  wait reason message = set_phase api run (pending reason message)

  abbrev wait_static : String → String → Action IngestCall ReconcileResult
  wait_static reason message = set_static_phase api run (pending reason (literal message))

  -- `persistResolvedIngestFlowProfiles`: whether the status has changed.
  unfoldable pub persist_profiles : List ResolvedFlowProfile → Action IngestCall Bool
  persist_profiles ps =
      if decided (ResolvedFlowProfile-discrete run.status.resolved_tams_flow_profiles ps)
      then return false
      else (do
        submit api (
            patch_run_status
              (record run { status = record run.status { resolved_tams_flow_profiles = ps } }))
        return true)

  -- Behind the creation of the Job.
  unfoldable pub job_created :
      ResolvedIngestInputs → ℕ → Result Job → Action IngestCall ReconcileResult
  unfolding set_job_phase_with_stream
  job_created resolved attempt_number (err already_exists) = return (requeue 1)
  job_created resolved attempt_number (err e) = throw e
  job_created resolved attempt_number (ok job) =
      set_job_phase_with_stream api run (some job)
        (report IngestRunPhase.queued "JobCreated" "The TAMSin Job was created" true)
        resolved.expected_inputs attempt_number none

  -- The creation of the Job, with its owner set.
  unfoldable pub submit_job :
      ResolvedIngestInputs → ℕ → Job → ObjectMeta → Action IngestCall ReconcileResult
  unfolding job_created
  submit_job resolved attempt_number job metadata =
      attempt (send_job api (record job { metadata = metadata }))
      >>= job_created resolved attempt_number

  module _ (t : Tamoss) (attempt_number : ℕ) (storage_id : String) (spec : IngestRunSpec)
      (resolved : ResolvedIngestInputs) where
    -- Behind the encoding of the Flow metadata.
    unfoldable pub admit_metadata : String → String → Action IngestCall ReconcileResult
    unfolding desired_ingest_job submit_job
    admit_metadata endpoint flow_metadata =
        let job =
          desired_ingest_job api.sha256_hex run spec t endpoint t.spec.tamsin_image storage_id
            flow_metadata resolved in
        lift (api.set_controller_reference run.metadata job.metadata)
        >>= submit_job resolved attempt_number job

    -- Behind the check of the endpoint.
    unfoldable pub admit_endpoint : Option String → Action IngestCall ReconcileResult
    unfolding flow_metadata_json admit_metadata set_static_phase
    admit_endpoint none =
        wait_static "IngestEndpointInvalid"
          "The approved TAMSin endpoint must be an HTTPS URL without embedded credentials"
    admit_endpoint (some endpoint) =
        lift (flow_metadata_json api.json spec.output) >>= admit_metadata endpoint

    -- Behind the resolution of the endpoint.
    unfoldable pub admit_resolved_endpoint : Result String → Action IngestCall ReconcileResult
    unfolding validate_ingest_endpoint admit_endpoint set_phase
    admit_resolved_endpoint (err e) =
        wait "IngestEndpointResolutionFailed"
          (literal "The approved TAMSin endpoint could not be resolved")
    admit_resolved_endpoint (ok endpoint) =
        admit_endpoint (validate_ingest_endpoint api.parse_url endpoint)

    -- The resolution of the endpoint, for inputs that passed the checks.
    unfoldable pub admit_inputs :
        Option (List IngestCall → String → String → Result String)
        → Action IngestCall ReconcileResult
    unfolding set_static_phase admit_resolved_endpoint
    admit_inputs none =
        wait_static "IngestEndpointResolverUnavailable"
          "The approved TLS ingest endpoint resolver is not configured"
    admit_inputs (some resolver) =
        attempt (
          call (resolve_endpoint run.metadata.namespace spec.tamoss_ref)
            (λ log. resolver log run.metadata.namespace spec.tamoss_ref))
        >>= admit_resolved_endpoint

  module _ (t : Tamoss) (attempt_number : ℕ) (storage_id : String) where
    -- Behind the check of the inputs.
    unfoldable pub admit_checked_inputs :
        IngestRunSpec → ResolvedIngestInputs → Option Error → Action IngestCall ReconcileResult
    unfolding admit_inputs set_phase
    admit_checked_inputs spec resolved (some e) =
        wait "InvalidResolvedInput"
          (literal "The source-policy resolver returned an invalid ingest plan")
    admit_checked_inputs spec resolved none =
        admit_inputs t attempt_number storage_id spec resolved api.endpoint_resolver

    -- Behind the resolution of the inputs.
    unfoldable pub admit_resolved_inputs :
        IngestRunSpec → Result ResolvedIngestInputs → Action IngestCall ReconcileResult
    unfolding inputs_error admit_checked_inputs set_phase
    admit_resolved_inputs spec (err e) =
        wait "InputPolicyRejected"
          (literal "The input is not permitted by the target Tamoss source policy")
    admit_resolved_inputs spec (ok resolved) =
        admit_checked_inputs spec resolved
          (inputs_error api.parse_url resolved spec.options.max_inputs)

    -- Behind the record of the resolved profiles, which ends the reconcile if it changed.
    unfoldable pub admit_recorded :
        InputResolver
        → IngestRunSpec
        → List ResolvedFlowProfile
        → Bool
        → Action IngestCall ReconcileResult
    unfolding with_resolved_profiles admit_resolved_inputs
    admit_recorded resolver spec ps true = return (requeue 1)
    admit_recorded resolver spec ps false =
        let resolved_spec = with_resolved_profiles spec ps in
        attempt (
          call (resolve_inputs run.metadata.namespace run.metadata.name)
            (λ log. resolver log t resolved_spec.input resolved_spec.options.max_inputs))
        >>= admit_resolved_inputs resolved_spec

    abbrev pub refuse_recorded : String → Message → Bool → Action IngestCall ReconcileResult
    refuse_recorded reason message true = return (requeue 1)
    refuse_recorded reason message false = wait reason message

    -- Behind the resolution of the profiles, with `resolveIngestFlowProfilesStage`.
    unfoldable pub admit_profiles :
        InputResolver
        → IngestRunSpec
        → Gate (List ResolvedFlowProfile)
        → Action IngestCall ReconcileResult
    unfolding persist_profiles admit_recorded set_phase
    admit_profiles resolver spec (refused reason message) =
        persist_profiles [] >>= refuse_recorded reason message
    admit_profiles resolver spec (admitted ps) =
        persist_profiles ps >>= admit_recorded resolver spec ps

  module _ (t : Tamoss) (spec : IngestRunSpec) where
    -- Behind the resolution of the storage backend.
    unfoldable pub admit_storage :
        InputResolver → ℕ → Gate String → Action IngestCall ReconcileResult
    unfolding resolve_flow_profiles admit_profiles set_phase
    admit_storage resolver attempt_number (refused reason message) = wait reason message
    admit_storage resolver attempt_number (admitted storage_id) =
        resolve_flow_profiles api run spec spec.options.tams_flow_profiles
        >>= admit_profiles t attempt_number storage_id resolver spec

    abbrev pub admit_with : ℕ → Option InputResolver → Action IngestCall ReconcileResult
    admit_with attempt_number none =
        wait_static "InputResolverUnavailable" "The ingest source-policy resolver is not configured"
    admit_with attempt_number (some resolver) =
        resolve_storage_backend api run spec spec.options.storage_backend_ref
        >>= admit_storage resolver attempt_number

    -- Behind the check of the retried run.
    unfoldable pub admit_attempt : Gate ℕ → Action IngestCall ReconcileResult
    unfolding resolve_storage_backend admit_storage set_static_phase set_phase
    admit_attempt (refused reason message) = wait reason message
    admit_attempt (admitted attempt_number) = admit_with attempt_number api.input_resolver

    -- The tests on the instance.
    unfoldable pub admit_instance : Config → Action IngestCall ReconcileResult
    unfolding ready_for_ingest trim_space is_immutable_image_reference validate_retry_parent
        admit_attempt set_phase set_static_phase
    admit_instance cfg =
        if not (ready_for_ingest api cfg t)
        then wait "TamossNotReady" (literal "The target Tamoss instance is not Ready")
        else if trim_space t.spec.tamsin_image == ""
        then wait_static "TamsinRuntimeUnavailable"
            "The operator has no immutable TAMSin image configured"
        else if not (is_immutable_image_reference t.spec.tamsin_image)
        then wait_static "TamsinImageNotImmutable"
            "spec.images.tamsin must use an immutable sha256 digest"
        else if not t.spec.api_token_generate
        then wait "IngestAuthenticationUnavailable"
            (literal "IngestRun currently requires an operator-managed API token Secret")
        else validate_retry_parent api run spec spec.retry_of >>= admit_attempt

  -- Behind the resolution of the instance's release.
  unfoldable pub admit : Config → IngestRunSpec → Result Tamoss → Action IngestCall ReconcileResult
  unfolding admit_instance release_error_reason error_text set_phase
  admit cfg spec (err e) = wait (release_error_reason e) (error_text e)
  admit cfg spec (ok t) = admit_instance t spec cfg
