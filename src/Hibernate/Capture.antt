-- ===== src/Hibernate/Capture.antt =====
-- The capture of the database (tamosshibernate_controller.go): the backup, the manifest that
-- describes it (tamoss_hibernation_manifest.go), and the removal of the source behind it.
use mathlib.Core.Bool.{not}
use tamoss.Base.{String, ◌==◌, Bool, ◌&&◌, Option, none, some, [], ◌∷◌, if◌then◌else◌}
use tamoss.Kube.{Message, sprintf, with_error, literal, ReconcileResult, done, requeue}
use tamoss.Effect.{Result, ok, err, Action, return, attempt, call, ◌>>=◌, ◌>>◌}
use tamoss.Config.{Config, poll}
use tamoss.Resources.{
  Tamoss, TamossHibernate, Cluster, Backup, BackupPhase, backup_unset, backup_completed,
  backup_failed, backup_other, BarmanObjectStore, db_provider, resource_name,
}
use tamoss.Resources.Storage.{StorageBackend, StorageBackendSpec}
use tamoss.Resources.Manifest.{Manifest}
use tamoss.Resources.Lifecycle.{
  Artifact, CnpgBackupStatus, OperationPhase, LifecyclePhase, LifecycleStatus,
}
use tamoss.Cluster.{Api, Call, write_manifest, current_time}
use tamoss.Lifecycle.{operation_object_reference, set_lifecycle_operation_state, patch_lifecycle}
use tamoss.Lifecycle.Operation.{update_hibernate_status}
use tamoss.Hibernate.Source.{storage_backend_from_destination, hibernate_kind}
use tamoss.Hibernate.Workloads.{ensure_backup, deprovision_source}

-- `string(backup.Status.Phase)`, by CloudNativePG's constants.
abbrev pub backup_phase_text : BackupPhase → String
backup_phase_text backup_unset = ""
backup_phase_text backup_completed = "completed"
backup_phase_text backup_failed = "failed"
backup_phase_text (backup_other s) = s

-- `backupPhaseOrPending`.
unfoldable pub backup_phase_or_pending : Backup → String
backup_phase_or_pending b =
    if backup_phase_text b.status.phase == "" then "pending" else backup_phase_text b.status.phase

-- `hibernateCNPGBackupFailureMessage`.
unfoldable pub backup_failure_message : Backup → Message
backup_failure_message b =
    if not (b.status.error == "")
    then sprintf "CNPG Backup %s failed: %s" (b.metadata.name ∷ b.status.error ∷ [])
    else if not (b.status.command_error == "")
    then sprintf "CNPG Backup %s failed: %s" (b.metadata.name ∷ b.status.command_error ∷ [])
    else sprintf "CNPG Backup %s failed" (b.metadata.name ∷ [])

-- `hibernateCNPGBackupStatus`.
unfoldable pub cnpg_backup_status : Backup → CnpgBackupStatus
cnpg_backup_status b = record {
  name = b.metadata.name;
  namespace = b.metadata.namespace;
  phase = backup_phase_text b.status.phase;
  destination_path = b.status.destination_path;
  backup_id = b.status.backup_id;
  error = b.status.error;
}

abbrev pub configured_path : Option BarmanObjectStore → String → String
configured_path none path = path
configured_path (some store) path = if path == "" then store.destination_path else path

-- The artifact with its backup; a destination that the backup does not name is the cluster's.
unfoldable pub with_backup : Cluster → Backup → Artifact → Artifact
unfolding cnpg_backup_status
with_backup c b artifact = record artifact {
  cnpg_backup = record (cnpg_backup_status b) {
    destination_path = configured_path c.backup b.status.destination_path;
  };
}

-- `buildHibernationManifest`; `schemabundle.SchemaVersion` is "dev" unless a build sets it.
unfoldable pub build_hibernation_manifest :
    String → Tamoss → StorageBackend → StorageBackendSpec → Artifact → String → Manifest
unfolding db_provider
build_hibernation_manifest created_at t b spec a server_name = record {
  manifest_version = "v1";
  created_at = created_at;
  driver = a.driver;
  source_tamoss = record {
    name = t.metadata.name;
    namespace = t.metadata.namespace;
    uid = t.metadata.uid;
  };
  schema = record {
    version = t.status.schema_version;
    tams_api = t.status.tams_api;
    operator = "dev";
    manifest_kind = "TamossHibernate";
  };
  database = record { provider = db_provider t.spec.db; cluster = server_name };
  artifact = record { manifest_key = a.manifest_key; manifest_uri = a.manifest_uri };
  cnpg = record {
    backup_name = a.cnpg_backup.name;
    backup_id = a.cnpg_backup.backup_id;
    destination_path = a.cnpg_backup.destination_path;
    server_name = server_name;
    phase = a.cnpg_backup.phase;
  };
  storage_backend = record {
    name = b.metadata.name;
    bucket = spec.bucket_name;
    endpoint_url = spec.endpoint_url;
    region = spec.region;
  };
}

module _ (api : Api) where
  -- `setHibernateLifecycleFailed`.
  unfoldable pub set_hibernate_lifecycle_failed :
      Tamoss → TamossHibernate → String → Message → Action Call Tamoss
  set_hibernate_lifecycle_failed t h reason message =
      patch_lifecycle api
        (λ (l : LifecycleStatus).
          record (set_lifecycle_operation_state LifecyclePhase.failed reason message none l) {
            last_hibernate_ref = some (operation_object_reference h.metadata hibernate_kind);
          })
        t

  -- `completeHibernateLifecycle`.
  unfoldable pub complete_hibernate_lifecycle : Tamoss → TamossHibernate → Action Call Tamoss
  complete_hibernate_lifecycle t h =
      patch_lifecycle api
        (λ (l : LifecycleStatus).
          record (set_lifecycle_operation_state LifecyclePhase.hibernated "TamossHibernated"
            (sprintf "TamossHibernate %s completed and TAMOSS is hibernated" (h.metadata.name ∷ []))
            none l) {
              last_hibernate_ref = some (operation_object_reference h.metadata hibernate_kind);
            })
        t

  -- `writeHibernateManifest`.
  unfoldable pub write_hibernate_manifest :
      Tamoss → StorageBackend → Artifact → Action Call Artifact
  unfolding storage_backend_from_destination build_hibernation_manifest
  write_hibernate_manifest t b artifact = do
    let spec = storage_backend_from_destination api b
    now ← current_time api
    let manifest =
        build_hibernation_manifest (api.format_time now) t b spec artifact (resource_name t "db")
    checksum ←
        call (write_manifest spec artifact.manifest_key manifest)
          (λ log. api.upload log spec artifact.manifest_key manifest)
    return (record artifact { checksum = checksum })

  module _ (cfg : Config) where
    -- A status and another look after the poll interval.
    unfoldable pub report_and_poll :
        TamossHibernate → OperationPhase → String → Message → Artifact → Action Call ReconcileResult
    report_and_poll h phase reason message artifact = do
      update_hibernate_status api h phase reason message artifact
      return (requeue (poll cfg))

    -- A failure of the instance's lifecycle and of the operation.
    unfoldable pub fail_both :
        Tamoss → TamossHibernate → String → Message → Artifact → Action Call ReconcileResult
    unfolding set_hibernate_lifecycle_failed
    fail_both t h reason message artifact = do
      set_hibernate_lifecycle_failed t h reason message
      update_hibernate_status api h OperationPhase.failed reason message artifact
      return done

    -- What follows the upload of the manifest.
    unfoldable pub manifest_written :
        TamossHibernate → Artifact → Result Artifact → Action Call ReconcileResult
    unfolding report_and_poll
    manifest_written h artifact (err e) =
        report_and_poll h OperationPhase.writing_manifest "HibernateManifestUploadFailed"
          (with_error "Hibernation manifest upload failed, retrying: %v" [] e) artifact
    manifest_written h artifact (ok written) =
        report_and_poll h OperationPhase.deprovisioning_source "SourceDeprovisioning"
          (literal "Hibernation artifact is committed; source database compute will be removed")
          written

    -- The switch on the phase of the backup.
    unfoldable pub follow_backup :
        BackupPhase
        → Tamoss
        → TamossHibernate
        → StorageBackend
        → Backup
        → Artifact
        → Action Call ReconcileResult
    unfolding report_and_poll fail_both manifest_written write_hibernate_manifest
        backup_phase_or_pending backup_failure_message
    follow_backup backup_completed t h destination b artifact = do
      written ← attempt (write_hibernate_manifest t destination artifact)
      manifest_written h artifact written
    follow_backup backup_failed t h destination b artifact =
        fail_both t h "BackupPolicyFailed" (backup_failure_message b) artifact
    follow_backup phase t h destination b artifact =
        report_and_poll h OperationPhase.capturing_database "TamossHibernating"
          (sprintf "CNPG Backup %s is %s" (b.metadata.name ∷ backup_phase_or_pending b ∷ []))
          artifact

    -- `reconcileHibernateCapture`, behind the backup.
    unfoldable pub capture_backup :
        Tamoss
        → TamossHibernate
        → Cluster
        → StorageBackend
        → Artifact
        → Backup
        → Bool
        → Action Call ReconcileResult
    unfolding with_backup follow_backup
    capture_backup t h c destination artifact b created =
        if not created && not (api.is_controlled_by b.metadata h.metadata)
        then fail_both t h "LifecycleOperationConflict"
            (sprintf "CNPG Backup %s already exists and is not owned by TamossHibernate %s"
              (b.metadata.name ∷ h.metadata.name ∷ []))
            artifact
        else if created
        then report_and_poll h OperationPhase.capturing_database "TamossHibernating"
            (sprintf "CNPG Backup %s was launched" (b.metadata.name ∷ []))
            (with_backup c b artifact)
        else follow_backup b.status.phase t h destination b (with_backup c b artifact)

    -- `reconcileHibernateCapture`.
    unfoldable pub reconcile_hibernate_capture :
        Tamoss → TamossHibernate → Cluster → StorageBackend → Artifact → Action Call ReconcileResult
    unfolding capture_backup ensure_backup
    reconcile_hibernate_capture t h c destination artifact = do
      (b, created) ← ensure_backup api h t
      capture_backup t h c destination artifact b created

    -- `reconcileHibernateSourceDeprovisioning`, behind the removal.
    unfoldable pub source_deprovisioned :
        Tamoss → TamossHibernate → Bool → Action Call ReconcileResult
    unfolding report_and_poll complete_hibernate_lifecycle
    source_deprovisioned t h gone =
        if not gone
        then report_and_poll h OperationPhase.deprovisioning_source "SourceDeprovisioning"
            (literal "Waiting for the source CNPG cluster to be removed") h.status.artifact
        else do
          complete_hibernate_lifecycle t h
          update_hibernate_status api h OperationPhase.completed "TamossHibernated"
              (literal
                "TAMOSS hibernation artifact is committed and source database compute is removed")
              h.status.artifact
          return done

    -- `reconcileHibernateSourceDeprovisioning`.
    unfoldable pub reconcile_source_deprovisioning :
        Tamoss → TamossHibernate → Action Call ReconcileResult
    unfolding source_deprovisioned deprovision_source
    reconcile_source_deprovisioning t h = do
      gone ← deprovision_source api t
      source_deprovisioned t h gone
