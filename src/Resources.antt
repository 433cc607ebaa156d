-- ===== src/Resources.antt =====
-- The operator's own resources (operator/api/v1alpha1) and the objects of other APIs that its
-- controllers read and write, with the fields that the modelled code uses.
pub mod Storage
pub mod Lifecycle
pub mod Manifest
use tamoss.Base.{
  ℕ, String, ◌==◌, Bool, true, false, Option, none, some, List, [], ◌∷◌, if◌then◌else◌,
}
use tamoss.Base.Text.{concat}
use tamoss.Kube.{Time, ObjectMeta, Condition, Message, Error}
use tamoss.Resources.Lifecycle.{
  OperationStatus, HibernationDestination, HibernationSpec, LifecycleStatus,
}

-- `DBBackendSpec`, `S3BackendSpec`: what selects the provider.
pub record DbBackendSpec : Type 0 where
  pub provided_by : String
  pub has_external : Bool
  pub has_bundled : Bool
  pub has_cnpg : Bool
  pub apply_fixtures : Option Bool

pub record S3BackendSpec : Type 0 where
  pub provided_by : String
  pub has_external : Bool
  pub has_rustfs_operator : Bool

abbrev pub provided_by_cnpg : String
provided_by_cnpg = "cnpg"

abbrev pub provided_by_external : String
provided_by_external = "external"

abbrev pub provided_by_rustfs_operator : String
provided_by_rustfs_operator = "rustfs-operator"

unfoldable pub db_provider : DbBackendSpec → String
db_provider d =
    if d.provided_by == ""
    then (if d.has_cnpg then provided_by_cnpg else provided_by_external)
    else d.provided_by

unfoldable pub s3_provider : S3BackendSpec → String
s3_provider s =
    if s.provided_by == ""
    then (if s.has_rustfs_operator then provided_by_rustfs_operator else provided_by_external)
    else s.provided_by

pub record TamossSpec : Type 0 where
  pub version : String
  pub profile : String
  pub paused : Bool
  pub fullname_override : String
  pub db : DbBackendSpec
  pub s3 : S3BackendSpec
  pub hibernation : HibernationSpec
  -- `images.tamsin`, `secrets.apiToken.generate`, `api.enabled`, `imagePullSecrets`.
  pub tamsin_image : String
  pub api_token_generate : Bool
  pub api_enabled : Option Bool
  pub image_pull_secrets : List String

pub record UpgradeStatus : Type 0 where
  pub target_version : String
  pub phase : String
  pub reason : String
  pub message : Message

pub record TamossStatus : Type 0 where
  pub current_version : String
  pub applied_defaults_revision : String
  pub observed_generation : ℕ
  pub conditions : List Condition
  pub tams_api : String
  pub schema_version : String
  pub upgrade : UpgradeStatus
  pub lifecycle : LifecycleStatus
  pub phase : String

pub record Tamoss : Type 0 where
  pub metadata : ObjectMeta
  pub spec : TamossSpec
  pub status : TamossStatus

-- `appendResourceSuffix`.
unfoldable pub append_resource_suffix : String → String → String
append_resource_suffix base suffix =
    if suffix == "" then base else concat (base ∷ "-" ∷ suffix ∷ [])

-- `(*Tamoss).ResourceName`.
unfoldable pub resource_name : Tamoss → String → String
unfolding append_resource_suffix
resource_name t suffix =
    append_resource_suffix
      (if t.spec.fullname_override == "" then t.metadata.name else t.spec.fullname_override) suffix

pub record HibernateSpec : Type 0 where
  pub tamoss_ref : String
  pub destination : HibernationDestination
  pub driver : String

pub record TamossHibernate : Type 0 where
  pub metadata : ObjectMeta
  pub spec : HibernateSpec
  pub status : OperationStatus

-- CloudNativePG's `Backup`, `Cluster` and `ScheduledBackup`.
pub data BackupPhase : Type 0 where
  backup_unset backup_completed backup_failed : BackupPhase
  backup_other : String → BackupPhase

pub record BackupStatus : Type 0 where
  pub phase : BackupPhase
  pub destination_path : String
  pub backup_id : String
  pub error : String
  pub command_error : String

pub record Backup : Type 0 where
  pub metadata : ObjectMeta
  pub cluster : String
  pub status : BackupStatus

-- `BarmanObjectStoreConfiguration` with the credentials that the operator writes.
pub record BarmanObjectStore : Type 0 where
  pub endpoint_url : String
  pub destination_path : String
  pub server_name : String
  pub secret_name : String
  pub access_key_key : String
  pub secret_key_key : String

pub record Cluster : Type 0 where
  pub metadata : ObjectMeta
  pub backup : Option BarmanObjectStore
  pub conditions : List Condition

pub record ScheduledBackup : Type 0 where
  pub metadata : ObjectMeta
  pub suspend : Option Bool

-- The workload objects that a hibernation stops.
pub record Autoscaler : Type 0 where
  pub metadata : ObjectMeta

pub record Deployment : Type 0 where
  pub metadata : ObjectMeta
  pub replicas : Option ℕ
  pub selector : String
  pub status_replicas : ℕ
  pub ready_replicas : ℕ
  pub available_replicas : ℕ
  pub updated_replicas : ℕ
  pub terminating_replicas : Option ℕ

pub data PodPhase : Type 0 where
  pod_succeeded pod_failed : PodPhase
  pod_other : String → PodPhase
