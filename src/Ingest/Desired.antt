-- ===== src/Ingest/Desired.antt =====
-- The Job that an ingest run asks for: `desiredIngestJob` of ingestrun_controller.go, with its
-- arguments, environment and volumes in the order of the code.
use tamoss.Base.{
  String, ◌==◌, Bool, true, false, not, Option, none, some, List, [], ◌∷◌, if◌then◌else◌, flatten,
}
use tamoss.Base.Assoc.{Assoc}
use tamoss.Base.Int32.{decimal}
use tamoss.Base.Text.{concat}
use tamoss.Resources.{Tamoss, resource_name}
use tamoss.Ingest.Run.{IngestRun, IngestRunSpec}
use tamoss.Ingest.Inputs.{ResolvedIngestInputs}
use tamoss.Ingest.Names.{ingest_job_name, ingest_run_selector_value}
use tamoss.Ingest.Job.{
  Job, JobResources, EnvVar, env_value, env_secret, Volume, empty_dir, downward_annotation,
  resources_for_ingest_run, ingest_verify_mode, tams_flow_profile_arguments, source_secret_env,
  job_concurrency, input_arguments,
}

abbrev pub ingest_run_label : String
ingest_run_label = "tamoss.livewyer.io/ingest-run"

abbrev pub ingest_run_target_label : String
ingest_run_target_label = "tamoss.livewyer.io/tamoss"

abbrev pub ingest_source_annotation : String
ingest_source_annotation = "tamoss.livewyer.io/ingest-source"

abbrev pub ingest_source_policy_annotation : String
ingest_source_policy_annotation = "tamoss.livewyer.io/ingest-source-policy-digest"

abbrev ingest_flow_metadata_annotation : String
ingest_flow_metadata_annotation = "tamoss.livewyer.io/flow-metadata"

abbrev verify_of : Option Bool → Bool
verify_of none = true
verify_of (some b) = b

-- The arguments that every run has.
unfoldable pub fixed_arguments : IngestRunSpec → String → JobResources → List String
unfolding ingest_verify_mode decimal
fixed_arguments spec endpoint r =
    "ingest"
    ∷ "--endpoint"
    ∷ endpoint
    ∷ "--format"
    ∷ "json"
    ∷ "--log-format"
    ∷ "json"
    ∷ "--progress"
    ∷ "none"
    ∷ "--profile"
    ∷ spec.profile
    ∷ "--max-inputs"
    ∷ decimal spec.options.max_inputs
    ∷ "--concurrency"
    ∷ decimal (job_concurrency spec.options r)
    ∷ "--staging-byte-budget"
    ∷ r.staging_byte_budget
    ∷ concat ("--verify=" ∷ ingest_verify_mode (verify_of spec.options.verify) ∷ [])
    ∷ []

abbrev s3_arguments : ResolvedIngestInputs → List String
s3_arguments r =
    if r.s3_endpoint == ""
    then []
    else ("--s3-endpoint"
        ∷ r.s3_endpoint
        ∷ "--s3-region"
        ∷ r.s3_region
        ∷ (if r.s3_path_style then "--s3-path-style" ∷ [] else []))

abbrev when : Bool → List String → List String
when b args = if b then args else []

-- The arguments in the order of the code.
unfoldable pub job_arguments :
    IngestRunSpec → Tamoss → String → String → String → ResolvedIngestInputs → List String
unfolding fixed_arguments tams_flow_profile_arguments input_arguments resources_for_ingest_run
job_arguments spec t endpoint storage_id flow_metadata resolved = flatten (
    fixed_arguments spec endpoint (resources_for_ingest_run spec.size_class)
    ∷ s3_arguments resolved
    ∷ when spec.options.dry_run ("--dry-run=exact" ∷ [])
    ∷ tams_flow_profile_arguments spec.options.tams_flow_profiles
    ∷ when (t.spec.profile == "local-kind") ("--insecure-skip-verify" ∷ [])
    ∷ when (not (storage_id == "")) ("--storage-id" ∷ storage_id ∷ [])
    ∷ when (not (flow_metadata == ""))
        ("--flow-metadata" ∷ "/etc/tamsin/flow-metadata/flow-metadata.json" ∷ [])
    ∷ input_arguments resolved.selectors
    ∷ [])

abbrev source_env : ResolvedIngestInputs → List EnvVar
source_env r =
    if r.credential_secret_name == ""
    then []
    else if r.credential_kind == "HTTP"
    then source_secret_env "TAMSIN_SOURCE_HTTP_HEADERS" r.credential_secret_name false ∷ []
    else if r.credential_kind == "S3"
    then (source_secret_env "AWS_ACCESS_KEY_ID" r.credential_secret_name false
        ∷ source_secret_env "AWS_SECRET_ACCESS_KEY" r.credential_secret_name false
        ∷ source_secret_env "AWS_SESSION_TOKEN" r.credential_secret_name true
        ∷ [])
    else []

unfoldable pub job_env : Tamoss → ResolvedIngestInputs → List EnvVar
unfolding resource_name
job_env t resolved =
    env_value "TAMSIN_AUTH_MODE" "bearer"
    ∷ env_secret "TAMSIN_AUTH_TOKEN" (resource_name t "api-token") "TAMOSS_API_TOKEN" false
    ∷ source_env resolved

unfoldable pub job_volumes : JobResources → String → List Volume
job_volumes r flow_metadata =
    empty_dir "temporary-media" "/tmp" r.temporary_size
    ∷ (if flow_metadata == ""
        then []
        else downward_annotation "flow-metadata" "/etc/tamsin/flow-metadata" "flow-metadata.json"
            ingest_flow_metadata_annotation
          ∷ [])

module _ (sha256_hex : String → String) where
  unfoldable pub job_labels : IngestRun → IngestRunSpec → Assoc String
  unfolding ingest_run_selector_value
  job_labels run spec =
      ("app.kubernetes.io/name", "tamsin")
      ∷ ("app.kubernetes.io/component", "ingest")
      ∷ ("app.kubernetes.io/managed-by", "tamoss-operator")
      ∷ ("app.kubernetes.io/instance", spec.tamoss_ref)
      ∷ (ingest_run_label, ingest_run_selector_value sha256_hex run.metadata.name)
      ∷ (ingest_run_target_label, spec.tamoss_ref)
      ∷ []

  -- `desiredIngestJob`.
  unfoldable pub desired_ingest_job :
      IngestRun
      → IngestRunSpec
      → Tamoss
      → String
      → String
      → String
      → String
      → ResolvedIngestInputs
      → Job
  unfolding resources_for_ingest_run job_arguments job_env job_volumes job_labels ingest_job_name
  desired_ingest_job run spec t endpoint image storage_id flow_metadata resolved = record {
    metadata = record {
      name = ingest_job_name sha256_hex run.metadata.name;
      namespace = run.metadata.namespace;
      uid = "";
      generation = 0;
      labels = job_labels run spec;
      annotations =
          (ingest_source_annotation, resolved.source_name)
          ∷ (ingest_source_policy_annotation, resolved.policy_digest)
          ∷ [];
      finalizers = [];
      owner_references = [];
      deletion_timestamp = none;
    };
    spec = record {
      labels = job_labels run spec;
      annotations =
          if flow_metadata == "" then [] else (ingest_flow_metadata_annotation, flow_metadata) ∷ [];
      container_name = "tamsin";
      image = image;
      args = job_arguments spec t endpoint storage_id flow_metadata resolved;
      env = job_env t resolved;
      resources = resources_for_ingest_run spec.size_class;
      volumes = job_volumes (resources_for_ingest_run spec.size_class) flow_metadata;
      image_pull_secrets = t.spec.image_pull_secrets;
      backoff_limit = 0;
      active_deadline_seconds = 21600;
      ttl_seconds_after_finished = 3600;
      termination_grace_period_seconds = 90;
      automount_service_account_token = false;
      enable_service_links = false;
      restart_policy = "Never";
      image_pull_policy = "IfNotPresent";
      run_as_non_root = true;
      run_as_user = 65532;
      run_as_group = 65532;
      seccomp_profile = "RuntimeDefault";
      allow_privilege_escalation = false;
      read_only_root_filesystem = true;
      dropped_capabilities = "ALL" ∷ [];
    };
    status = record { active = 0; start_time = none; completion_time = none; conditions = [] };
  }
