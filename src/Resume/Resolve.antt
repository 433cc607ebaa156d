-- ===== src/Resume/Resolve.antt =====
-- The resolution of a bootstrap source into a restore (tamoss_resume_bootstrap.go).
use tamoss.Base.{String, ◌==◌, true, not, ◌||◌, Option, none, some, [], ◌∷◌, if◌then◌else◌}
use tamoss.Kube.{Message, sprintf, with_error, literal, Error, error_text, cause, not_found}
use tamoss.Effect.{Result, ok, err, Action, return, attempt, call, ◌>>=◌}
use tamoss.Config.{Config, schema_of}
use tamoss.Resources.{Tamoss, TamossHibernate}
use tamoss.Resources.Storage.{
  StorageBackend, StorageBackendSpec, is_hibernate_destination, is_external_object_store,
}
use tamoss.Resources.Manifest.{Manifest}
use tamoss.Resources.Lifecycle.{OperationPhase, ResumeSource, ResumeArtifactSource, ResolvedRestore}
use tamoss.Cluster.{Api, Call, get_hibernate, get_storage_backend, read_manifest}
use tamoss.Lifecycle.Operation.{is_completed, is_failed}
use tamoss.Hibernate.Prefix.{hibernate_manifest_key}
use tamoss.Hibernate.Source.{no_artifact, storage_backend_from_destination}
use tamoss.Resume.{Outcome, resolved, waiting, failure, and_then}
use tamoss.Resume.Manifest.{
  is_permanent_read_error, read_failure_reason, validate_resume_manifest, server_name, is_sentinel,
  schema_unsupported,
}

-- The phase as the status spells it.
abbrev pub phase_text : OperationPhase → String
phase_text OperationPhase.unset = ""
phase_text OperationPhase.pending = "Pending"
phase_text OperationPhase.resolving_source = "ResolvingSource"
phase_text OperationPhase.preparing_target = "PreparingTarget"
phase_text OperationPhase.quiescing = "Quiescing"
phase_text OperationPhase.capturing_database = "CapturingDatabase"
phase_text OperationPhase.writing_manifest = "WritingManifest"
phase_text OperationPhase.deprovisioning_source = "DeprovisioningSource"
phase_text OperationPhase.completed = "Completed"
phase_text OperationPhase.failed = "Failed"

-- What a source names: the backend, the key of the manifest and the checksum to trust.
pub record Location : Type 0 where
  pub storage_backend_name : String
  pub manifest_key : String
  pub trusted_checksum : String

abbrev invalid : {A : Type 0} → Message → Outcome A
invalid message = failure "HibernateSourceInvalid" message

abbrev not_ready : {A : Type 0} → Message → Outcome A
not_ready message = waiting "StorageBackendNotReady" message

-- The location of a hibernation's artifact.
unfoldable pub location_of_hibernate : TamossHibernate → Outcome Location
unfolding hibernate_manifest_key
location_of_hibernate h =
    let name = h.metadata.name in
    if is_failed h.status.phase
    then invalid (
        sprintf "TamossHibernate %s has failed and cannot be resumed; create a new hibernation"
          (name ∷ []))
    else if not (is_completed h.status.phase)
    then waiting "HibernateSourceInvalid"
        (sprintf "TamossHibernate %s is %q, not Completed" (name ∷ phase_text h.status.phase ∷ []))
    else if h.status.artifact.checksum == ""
    then invalid (sprintf "TamossHibernate %s has no trusted manifest checksum" (name ∷ []))
    else resolved (record {
      storage_backend_name = h.spec.destination.storage_backend_ref;
      manifest_key =
          if h.status.artifact.manifest_key == ""
          then hibernate_manifest_key h
          else h.status.artifact.manifest_key;
      trusted_checksum = h.status.artifact.checksum;
    })

unfoldable pub location_of_read : String → Result TamossHibernate → Outcome Location
unfolding location_of_hibernate
location_of_read name (ok h) = location_of_hibernate h
location_of_read name (err not_found) =
    waiting "HibernateSourceInvalid" (sprintf "TamossHibernate %s was not found" (name ∷ []))
location_of_read name (err e) =
    waiting "HibernateSourceInvalid"
      (with_error "TamossHibernate %s could not be read: %v" (name ∷ []) e)

-- The location that a declared artifact names.
unfoldable pub location_of_artifact : Option ResumeArtifactSource → Outcome Location
location_of_artifact none =
    invalid (literal "spec.hibernation.resumeFrom must set hibernationRef or artifact")
location_of_artifact (some a) =
    if a.storage_backend_ref == "" || a.manifest_key == "" || a.checksum == ""
    then invalid
        (literal "resumeFrom.artifact requires storageBackendRef.name, manifestKey, and checksum")
    else resolved (record {
      storage_backend_name = a.storage_backend_ref;
      manifest_key = a.manifest_key;
      trusted_checksum = a.checksum;
    })

-- `source.HibernationRef.Name`, empty without a reference.
abbrev pub hibernation_name : Option String → String
hibernation_name none = ""
hibernation_name (some name) = name

-- The reason of a manifest that is not valid.
unfoldable pub invalid_manifest_reason : Error → String
unfolding is_sentinel
invalid_manifest_reason e =
    if is_sentinel schema_unsupported (cause e)
    then "UnsupportedSchemaVersion"
    else "HibernateSourceInvalid"

-- The restore that a manifest describes.
unfoldable pub restore_from_manifest :
    StorageBackendSpec → String → String → String → Manifest → ResolvedRestore
unfolding server_name
restore_from_manifest spec backend manifest_key checksum m = record {
  restore = record {
    enabled = true;
    source = server_name m;
    backup_id = "";
    target_time = "";
    object_store = record {
      endpoint_url = spec.endpoint_url;
      bucket = spec.bucket_name;
      destination_path = m.cnpg.destination_path;
      server_name = server_name m;
      existing_secret = spec.existing_secret;
      access_key_key = spec.access_key_key;
      secret_key_key = spec.secret_key_key;
    };
  };
  checksum = checksum;
  retention = record {
    storage_backend_name = backend;
    manifest_key = manifest_key;
    resumed_at = none;
    cleanup = no_artifact.cleanup;
  };
}

-- The end of `resolveResumeBootstrapSource`, behind the read of the manifest.
unfoldable pub validated :
    Config
    → Tamoss
    → StorageBackendSpec
    → String
    → Location
    → Manifest
    → String
    → Result (Unit {0})
    → Outcome ResolvedRestore
unfolding invalid_manifest_reason restore_from_manifest
validated cfg t spec backend l m checksum (err e) =
    failure (invalid_manifest_reason e) (error_text e)
validated cfg t spec backend l m checksum (ok u) =
    resolved (restore_from_manifest spec backend l.manifest_key checksum m)

unfoldable pub restore_of_read :
    Config
    → Tamoss
    → StorageBackendSpec
    → String
    → Location
    → Result (Manifest × String)
    → Outcome ResolvedRestore
unfolding is_permanent_read_error read_failure_reason validated validate_resume_manifest schema_of
restore_of_read cfg t spec backend l (err e) =
    if is_permanent_read_error e
    then failure (read_failure_reason e) (error_text e)
    else waiting "HibernateManifestUnavailable"
        (with_error "Hibernation manifest read failed, retrying: %v" [] e)
restore_of_read cfg t spec backend l (ok (m, checksum)) =
    if checksum == ""
    then failure "HibernateManifestChecksumMismatch"
        (literal "hibernation manifest reader did not return a SHA-256 checksum")
    else if not (l.trusted_checksum == checksum)
    then failure "HibernateManifestChecksumMismatch" (
        sprintf "hibernation manifest checksum mismatch: source %s, computed %s"
          (l.trusted_checksum ∷ checksum ∷ []))
    else validated cfg t spec backend l m checksum
        (validate_resume_manifest m l.manifest_key (schema_of cfg t.spec.version))

module _ (api : Api) where
  -- The first part of `resolveResumeBootstrapSource`: the switch on the source.
  unfoldable pub locate : Tamoss → ResumeSource → Action Call (Outcome Location)
  unfolding location_of_read location_of_artifact
  locate t source =
      let name = hibernation_name source.hibernation_ref in
      if name == "" then return (location_of_artifact source.artifact) else (do
        read ← attempt (get_hibernate api t.metadata.namespace name)
        return (location_of_read name read))

  -- The checks of the artifact's backend: the backend and its spec with the defaults.
  unfoldable pub usable_backend :
      String → Result StorageBackend → Outcome (StorageBackend × StorageBackendSpec)
  unfolding storage_backend_from_destination is_hibernate_destination is_external_object_store
  usable_backend name (err not_found) =
      not_ready (sprintf "Artifact StorageBackend %s was not found" (name ∷ []))
  usable_backend name (err e) =
      not_ready (with_error "Artifact StorageBackend %s could not be read: %v" (name ∷ []) e)
  usable_backend name (ok b) =
      let spec = storage_backend_from_destination api b in
      if not (is_hibernate_destination spec) || not (is_external_object_store spec)
      then invalid (
          sprintf "Artifact StorageBackend %s must be an external-s3 hibernate destination"
            (b.metadata.name ∷ []))
      else if not (b.phase == "Ready")
      then not_ready (sprintf "Artifact StorageBackend %s is not ready" (b.metadata.name ∷ []))
      else resolved (b, spec)

  unfoldable pub read_location :
      Config
      → Tamoss
      → Location
      → StorageBackend × StorageBackendSpec
      → Action Call (Outcome ResolvedRestore)
  unfolding restore_of_read
  read_location cfg t l (b, spec) = do
    read ←
        attempt
          (call (read_manifest spec l.manifest_key) (λ log. api.download log spec l.manifest_key))
    return (restore_of_read cfg t spec b.metadata.name l read)

  -- `resolveResumeBootstrapSource`.
  unfoldable pub resolve_source :
      Config → Tamoss → ResumeSource → Action Call (Outcome ResolvedRestore)
  unfolding locate usable_backend read_location
  resolve_source cfg t source = do
    located ← locate t source
    and_then located (λ l. do
      read ← attempt (get_storage_backend api t.metadata.namespace l.storage_backend_name)
      and_then (usable_backend l.storage_backend_name read) (read_location cfg t l))
