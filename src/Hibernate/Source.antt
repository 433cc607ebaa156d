-- ===== src/Hibernate/Source.antt =====
-- Finding what a hibernation works on (tamosshibernate_controller.go): the instance, the
-- destination, the database cluster, the schema, and the claim on the instance's lifecycle.
use mathlib.Core.Bool.{not}
use tamoss.Base.{
  String, ◌==◌, Bool, true, false, ◌&&◌, ◌||◌, Option, none, some, [], ◌∷◌, decided, if◌then◌else◌,
}
use tamoss.Base.Text.{concat, trim_space}
use tamoss.Kube.{
  Error, errorf, error_text, Message, sprintf, literal, ConditionStatus, condition_true,
  ObjectReference,
}
use tamoss.Effect.{Result, ok, err, Action, return, lift, attempt, or_absent, ◌>>=◌}
use tamoss.Releases.{supports}
use tamoss.Config.{Config, defaults_applied_to, resolve_tamoss, release_error_reason, schema_of}
use tamoss.Resources.{
  Tamoss, TamossHibernate, Cluster, db_provider, s3_provider, provided_by_cnpg,
  provided_by_external, resource_name,
}
use tamoss.Resources.Storage.{
  StorageBackend, StorageBackendSpec, apply_defaults, is_external_object_store,
  is_hibernate_destination,
}
use tamoss.Resources.Lifecycle.{
  CleanupPhase, Artifact, OperationPhase, LifecyclePhase, LifecyclePhase-discrete,
}
use tamoss.Cluster.{Api, Call, get_tamoss, get_storage_backend, get_cluster}
use tamoss.Lifecycle.{
  operation_object_reference, operation_ref_matches, set_lifecycle_operation_state, patch_lifecycle,
}
use tamoss.Lifecycle.Operation.{update_hibernate_status}
use tamoss.Hibernate.Prefix.{
  hibernate_driver, driver_cnpg_physical, hibernate_manifest_key,
  validate_hibernation_destination_prefix,
}

-- What a step hands on: its result, or the operation as its status was left, if the reconcile ends
-- there.
pub data Stage (A : Type 0) : Type 0 where
  proceed : A → Stage A
  halt : TamossHibernate → Stage A

-- `HibernationArtifactStatus{}`.
abbrev pub no_artifact : Artifact
no_artifact = record {
  driver = "";
  manifest_uri = "";
  manifest_key = "";
  checksum = "";
  cnpg_backup = record {
    name = "";
    namespace = "";
    phase = "";
    destination_path = "";
    backup_id = "";
    error = "";
  };
  cleanup = record {
    phase = CleanupPhase.unset;
    reason = "";
    message = Message.empty;
    objects_deleted = 0;
    completed_at = none;
  };
}

abbrev pub hibernate_kind : String
hibernate_kind = "TamossHibernate"

abbrev pub is_true : ConditionStatus → Bool
is_true condition_true = true
is_true s = false

-- `hibernateLifecycleOwnedBy`.
unfoldable pub hibernate_lifecycle_owned_by : Tamoss → TamossHibernate → Bool
hibernate_lifecycle_owned_by t h =
    operation_ref_matches t.status.lifecycle.active_operation_ref h.metadata hibernate_kind
    || decided (LifecyclePhase-discrete t.status.lifecycle.phase LifecyclePhase.hibernated)
      && operation_ref_matches t.status.lifecycle.last_hibernate_ref h.metadata hibernate_kind

-- `hibernateCompatibilityError`.
unfoldable pub hibernate_compatibility_error : Tamoss → TamossHibernate → Option Error
unfolding hibernate_driver db_provider s3_provider
hibernate_compatibility_error t h =
    if not (hibernate_driver h == driver_cnpg_physical)
    then some (errorf "hibernate driver %q is not supported yet" (hibernate_driver h ∷ []))
    else if not (db_provider t.spec.db == provided_by_cnpg)
    then some (errorf "cnpgPhysical hibernate requires a managed CNPG database backend" [])
    else if not (s3_provider t.spec.s3 == provided_by_external)
    then some (
        errorf
          "portable hibernation requires an external S3 media backend; managed RustFS media is not included in the database artifact"
          [])
    else none

module _ (api : Api) where
  -- `storageBackendFromDestination`.
  unfoldable pub storage_backend_from_destination : StorageBackend → StorageBackendSpec
  unfolding apply_defaults
  storage_backend_from_destination b =
      apply_defaults api.deterministic_id b.metadata.namespace b.metadata.name b.spec

  -- `buildHibernateArtifact`, behind the check of the prefix.
  unfoldable pub with_manifest_uri :
      Artifact → String → Result (Unit {0}) → Artifact × Result (Unit {0})
  with_manifest_uri artifact bucket (err e) = (artifact, err e)
  with_manifest_uri artifact bucket (ok u) = (
    record artifact {
      manifest_uri =
          if bucket == ""
          then artifact.manifest_uri
          else concat ("s3://" ∷ bucket ∷ "/" ∷ artifact.manifest_key ∷ []);
    },
    ok tt,
  )

  -- `buildHibernateArtifact`: the artifact, and the error of the destination prefix.
  unfoldable pub build_hibernate_artifact :
      TamossHibernate → StorageBackend → Artifact × Result (Unit {0})
  unfolding with_manifest_uri storage_backend_from_destination hibernate_driver
      hibernate_manifest_key
  build_hibernate_artifact h b =
      let spec = storage_backend_from_destination b in
      with_manifest_uri
        (record no_artifact {
          driver = hibernate_driver h;
          manifest_key = hibernate_manifest_key h;
        })
        spec.bucket_name (validate_hibernation_destination_prefix h.spec.destination.prefix)

  -- Ends a reconcile with a status.
  unfoldable pub halt_with :
      {A : Type 0}
      → TamossHibernate
      → OperationPhase
      → String
      → Message
      → Artifact
      → Action Call (Stage A)
  halt_with h phase reason message artifact = do
    updated ← update_hibernate_status api h phase reason message artifact
    return (halt updated)

  module _ (cfg : Config) (h : TamossHibernate) where
    -- `resolveHibernateTamoss`, behind the read and behind the resolution of the release.
    unfoldable pub resolved_hibernate_tamoss : Result Tamoss → Action Call (Stage Tamoss)
    unfolding halt_with
    resolved_hibernate_tamoss (ok t) = return (proceed t)
    resolved_hibernate_tamoss (err e) =
        halt_with h OperationPhase.resolving_source (release_error_reason e) (error_text e)
          no_artifact

    unfoldable pub found_hibernate_tamoss : Option Tamoss → Action Call (Stage Tamoss)
    unfolding resolved_hibernate_tamoss resolve_tamoss
    found_hibernate_tamoss (some t) = resolved_hibernate_tamoss (resolve_tamoss cfg t)
    found_hibernate_tamoss none =
        halt_with h OperationPhase.resolving_source "TamossNotFound"
          (sprintf "Referenced Tamoss %s was not found" (h.spec.tamoss_ref ∷ [])) no_artifact

    -- `resolveHibernateTamoss`.
    unfoldable pub resolve_hibernate_tamoss : Action Call (Stage Tamoss)
    unfolding found_hibernate_tamoss
    resolve_hibernate_tamoss =
        if h.spec.tamoss_ref == ""
        then halt_with h OperationPhase.failed "TamossNotFound"
            (literal "spec.tamossRef.name is required") no_artifact
        else do
          read ← attempt (get_tamoss api h.metadata.namespace h.spec.tamoss_ref)
          found ← lift (or_absent read)
          found_hibernate_tamoss found

  module _ (h : TamossHibernate) where
    -- `resolveHibernateDestination`, behind the read.
    unfoldable pub found_hibernate_destination :
        Option StorageBackend → Action Call (Stage StorageBackend)
    unfolding halt_with storage_backend_from_destination is_hibernate_destination
        is_external_object_store
    found_hibernate_destination none =
        halt_with h OperationPhase.preparing_target "StorageBackendNotReady"
          (sprintf "Hibernate destination StorageBackend %s was not found"
            (h.spec.destination.storage_backend_ref ∷ []))
          no_artifact
    found_hibernate_destination (some b) =
        let spec = storage_backend_from_destination b in
        let name = b.metadata.name in
        if not (is_hibernate_destination spec)
        then halt_with h OperationPhase.failed "HibernateDestinationInvalid"
            (sprintf "StorageBackend %s must set spec.usage=hibernate" (name ∷ [])) no_artifact
        else if not (is_external_object_store spec)
        then halt_with h OperationPhase.failed "HibernateDestinationInvalid"
            (sprintf "StorageBackend %s must use provider external-s3" (name ∷ [])) no_artifact
        else if not (b.phase == "Ready")
        then halt_with h OperationPhase.preparing_target "StorageBackendNotReady"
            (sprintf "Hibernate destination StorageBackend %s is not ready" (name ∷ [])) no_artifact
        else return (proceed b)

    -- `resolveHibernateDestination`.
    unfoldable pub resolve_hibernate_destination : Action Call (Stage StorageBackend)
    unfolding found_hibernate_destination
    resolve_hibernate_destination =
        if h.spec.destination.storage_backend_ref == ""
        then halt_with h OperationPhase.failed "HibernateDestinationInvalid"
            (literal "spec.destination.storageBackendRef.name is required") no_artifact
        else do
          read ←
              attempt (
                get_storage_backend api h.metadata.namespace h.spec.destination.storage_backend_ref)
          found ← lift (or_absent read)
          found_hibernate_destination found

    -- `loadHibernateCNPGCluster`.
    unfoldable pub found_hibernate_cluster :
        String → Artifact → Option Cluster → Action Call (Stage Cluster)
    unfolding halt_with
    found_hibernate_cluster name artifact (some c) = return (proceed c)
    found_hibernate_cluster name artifact none =
        halt_with h OperationPhase.preparing_target "ClusterNotReady"
          (sprintf "CNPG Cluster %s was not found" (name ∷ [])) artifact

    unfoldable pub load_hibernate_cluster : Tamoss → Artifact → Action Call (Stage Cluster)
    unfolding found_hibernate_cluster
    load_hibernate_cluster t artifact = do
      read ← attempt (get_cluster api t.metadata.namespace (resource_name t "db"))
      found ← lift (or_absent read)
      found_hibernate_cluster (resource_name t "db") artifact found

    -- The schema condition of an instance holds, and the installation's defaults are applied.
    unfoldable pub schema_migrated : Config → Tamoss → Bool
    unfolding defaults_applied_to
    schema_migrated cfg t = elim (api.find_status_condition t.status.conditions "SchemaMigrated") [
      | none ↦ false
      | some c ↦ is_true c.status && defaults_applied_to cfg t
    ]

    -- `validateHibernateSourceSchema`.
    unfoldable pub validate_hibernate_source_schema :
        Config → Tamoss → Artifact → Action Call (Stage Unit)
    unfolding halt_with schema_migrated hibernate_lifecycle_owned_by schema_of
    validate_hibernate_source_schema cfg t artifact =
        let version = trim_space t.status.schema_version in
        if hibernate_lifecycle_owned_by t h
        then return (proceed tt)
        else if not (schema_migrated cfg t)
        then halt_with h OperationPhase.resolving_source "SchemaNotReady"
            (sprintf "Tamoss %s is waiting for schema migration before hibernation"
              (t.metadata.name ∷ []))
            artifact
        else if version == "" || not (supports (schema_of cfg t.spec.version) version)
        then halt_with h OperationPhase.failed "UnsupportedSchemaVersion"
            (sprintf "Tamoss %s schema version %q is not supported for hibernation"
              (t.metadata.name ∷ version ∷ []))
            artifact
        else return (proceed tt)

    -- `acquireHibernateLifecycle`: the claim on an instance that no operation holds.
    unfoldable pub claim_lifecycle : Tamoss → Action Call (Stage Tamoss)
    claim_lifecycle t = do
      claimed ←
          patch_lifecycle api
            (set_lifecycle_operation_state LifecyclePhase.hibernating "TamossHibernating"
              (sprintf "TamossHibernate %s is creating a hibernation artifact"
                (h.metadata.name ∷ []))
              (some (operation_object_reference h.metadata hibernate_kind)))
            t
      return (proceed claimed)

    abbrev is_foreign : Option ObjectReference → Bool
    is_foreign none = false
    is_foreign (some ref) = not (operation_ref_matches (some ref) h.metadata hibernate_kind)

    abbrev ref_kind : Option ObjectReference → String
    ref_kind none = ""
    ref_kind (some ref) = ref.kind

    abbrev ref_name : Option ObjectReference → String
    ref_name none = ""
    ref_name (some ref) = ref.name

    -- `acquireHibernateLifecycle`, which leaves the instance as it was patched.
    unfoldable pub acquire_hibernate_lifecycle : Tamoss → Action Call (Stage Tamoss)
    unfolding halt_with claim_lifecycle
    acquire_hibernate_lifecycle t =
        let active = t.status.lifecycle.active_operation_ref in
        if is_foreign active
        then halt_with h OperationPhase.failed "LifecycleOperationConflict"
            (sprintf "Tamoss %s already has active lifecycle operation %s/%s"
              (t.metadata.name ∷ ref_kind active ∷ ref_name active ∷ []))
            no_artifact
        else if decided (LifecyclePhase-discrete t.status.lifecycle.phase LifecyclePhase.hibernated)
        then (if operation_ref_matches t.status.lifecycle.last_hibernate_ref h.metadata
              hibernate_kind
            then return (proceed t)
            else halt_with h OperationPhase.failed "LifecycleOperationConflict"
                (sprintf "Tamoss %s is already hibernated" (t.metadata.name ∷ [])) no_artifact)
        else claim_lifecycle t
