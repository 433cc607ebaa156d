-- ===== src/Resources/Lifecycle.antt =====
-- operator/api/v1alpha1/tamoss_lifecycle_types.go: the lifecycle status of an instance and the
-- status of a hibernation operation. The phases are closed enumerations in the CRD; `unset` is the
-- empty text.
use native.Mathlib.Decide.{ℕ_discrete}
use tamoss.Base.{ℕ, String, String-discrete, Bool, Option, List}
use tamoss.Kube.{Time, Message, ObjectReference, Condition}

pub data LifecyclePhase : Type 0 where
  unset running hibernating hibernated resuming failed : LifecyclePhase

pub data OperationPhase : Type 0 where
  unset pending resolving_source preparing_target quiescing capturing_database : OperationPhase
  writing_manifest deprovisioning_source completed failed : OperationPhase

pub data CleanupPhase : Type 0 where
  unset retained pending completed blocked : CleanupPhase

pub record CnpgBackupStatus : Type 0 where
  pub name : String
  pub namespace : String
  pub phase : String
  pub destination_path : String
  pub backup_id : String
  pub error : String

pub record CleanupStatus : Type 0 where
  pub phase : CleanupPhase
  pub reason : String
  pub message : Message
  pub objects_deleted : ℕ
  pub completed_at : Option Time

pub record Artifact : Type 0 where
  pub driver : String
  pub manifest_uri : String
  pub manifest_key : String
  pub checksum : String
  pub cnpg_backup : CnpgBackupStatus
  pub cleanup : CleanupStatus

pub record OperationStatus : Type 0 where
  pub observed_generation : ℕ
  pub conditions : List Condition
  pub phase : OperationPhase
  pub reason : String
  pub message : Message
  pub started_at : Option Time
  pub completed_at : Option Time
  pub accepted_retry : String
  pub artifact : Artifact

pub record HibernationDestination : Type 0 where
  pub storage_backend_ref : String
  pub prefix : String

pub record ResumeArtifactSource : Type 0 where
  pub storage_backend_ref : String
  pub manifest_key : String
  pub checksum : String

pub record ResumeSource : Type 0 where
  pub hibernation_ref : Option String
  pub artifact : Option ResumeArtifactSource

pub record HibernationSpec : Type 0 where
  pub enabled : Bool
  pub destination : Option HibernationDestination
  pub resume_from : Option ResumeSource

-- `DBCNPGObjectStoreSpec` and `DBCNPGRestoreSpec`, as a restore from an artifact fills them.
pub record RestoreObjectStore : Type 0 where
  pub endpoint_url : String
  pub bucket : String
  pub destination_path : String
  pub server_name : String
  pub existing_secret : String
  pub access_key_key : String
  pub secret_key_key : String

pub record RestoreSpec : Type 0 where
  pub enabled : Bool
  pub source : String
  pub backup_id : String
  pub target_time : String
  pub object_store : RestoreObjectStore

pub record ArtifactRetention : Type 0 where
  pub storage_backend_name : String
  pub manifest_key : String
  pub resumed_at : Option Time
  pub cleanup : CleanupStatus

pub record ResolvedRestore : Type 0 where
  pub restore : RestoreSpec
  pub checksum : String
  pub retention : ArtifactRetention

pub record LifecycleStatus : Type 0 where
  pub phase : LifecyclePhase
  pub reason : String
  pub message : Message
  pub last_transition_time : Option Time
  -- An `int32`, by its bits (Base.Int32).
  pub hibernation_cycle : ℕ
  pub active_operation_ref : Option ObjectReference
  pub last_hibernate_ref : Option ObjectReference
  pub resolved_restore : Option ResolvedRestore
  pub pending_artifact_cleanups : List ArtifactRetention

pub LifecyclePhase-discrete : Discrete LifecyclePhase
LifecyclePhase-discrete = hlevel

pub OperationPhase-discrete : Discrete OperationPhase
OperationPhase-discrete = hlevel

pub OperationStatus-discrete : Discrete OperationStatus
OperationStatus-discrete = hlevel (String-discrete, ℕ_discrete)

pub LifecycleStatus-discrete : Discrete LifecycleStatus
LifecycleStatus-discrete = hlevel (String-discrete, ℕ_discrete)
