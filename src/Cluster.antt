-- ===== src/Cluster.antt =====
-- The cluster as the lifecycle controllers see it: the calls that they make, and what the API
-- server, the object store, the clock and the apimachinery library answer. None of these is code
-- of the repository, so they are the fields of a record that the controllers take as a parameter.
use tamoss.Base.{ℕ, String, ◌≡◌, ◌≢◌, Bool, Option, some, List}
use tamoss.Kube.{Time, Message, ObjectMeta, Condition}
use tamoss.Effect.{Result, Action, call, observe}
use tamoss.Resources.{
  Tamoss, TamossHibernate, Backup, Cluster, ScheduledBackup, Autoscaler, Deployment, PodPhase,
}
use tamoss.Resources.Storage.{StorageBackend, StorageBackendSpec}
use tamoss.Resources.Manifest.{Manifest}

pub data EventType : Type 0 where
  normal warning : EventType

-- A call with the object or the key that it carries. A patch carries the object as it is to be.
pub data Call : Type 0 where
  get : String → String → String → Call
  list_pods : String → String → Call
  patch_hibernate : TamossHibernate → Call
  patch_hibernate_status : TamossHibernate → Call
  create_hibernate : TamossHibernate → Call
  delete_hibernate : TamossHibernate → Call
  patch_tamoss_status : Tamoss → Call
  patch_cluster : Cluster → Call
  delete_cluster : Cluster → Call
  create_backup : Backup → Call
  delete_backup : Backup → Call
  patch_scheduled_backup : ScheduledBackup → Call
  delete_autoscaler : Autoscaler → Call
  patch_deployment : Deployment → Call
  write_manifest : StorageBackendSpec → String → Manifest → Call
  read_manifest : StorageBackendSpec → String → Call
  delete_prefix : StorageBackendSpec → String → Call
  event : EventType → String → String → Message → Call

pub record Api : Type 0 where
  pub hibernate_at : List Call → String → String → Result TamossHibernate
  pub tamoss_at : List Call → String → String → Result Tamoss
  pub storage_backend_at : List Call → String → String → Result StorageBackend
  pub cluster_at : List Call → String → String → Result Cluster
  pub backup_at : List Call → String → String → Result Backup
  pub scheduled_backup_at : List Call → String → String → Result ScheduledBackup
  pub autoscaler_at : List Call → String → String → Result Autoscaler
  pub deployment_at : List Call → String → String → Result Deployment
  pub pods_at : List Call → String → String → Result (List PodPhase)
  -- The object that the API server answers to a patch or a creation; the client overwrites the
  -- caller's object with it.
  pub patched_tamoss : List Call → Tamoss → Result Tamoss
  pub patched_hibernate : List Call → TamossHibernate → Result TamossHibernate
  pub patched_cluster : List Call → Cluster → Result Cluster
  pub created_backup : List Call → Backup → Result Backup
  -- What another write answers, or one whose object is not looked at again.
  pub outcome : List Call → Call → Result (Unit {0})
  -- `HibernationManifestWriter`, `HibernationManifestReader` and `HibernationArtifactCleaner`.
  pub upload : List Call → StorageBackendSpec → String → Manifest → Result String
  pub download : List Call → StorageBackendSpec → String → Result (Manifest × String)
  pub delete_objects : List Call → StorageBackendSpec → String → Result ℕ
  pub now : List Call → Time
  -- `time.Format(time.RFC3339)`.
  pub format_time : Time → String
  -- `metav1.IsControlledBy` of an object and its owner.
  pub is_controlled_by : ObjectMeta → ObjectMeta → Bool
  -- `controllerutil.SetControllerReference` of an owner and an object.
  pub set_controller_reference : ObjectMeta → ObjectMeta → Result ObjectMeta
  -- `controllerutil.ContainsFinalizer`, `AddFinalizer` and `RemoveFinalizer`.
  pub contains_finalizer : ObjectMeta → String → Bool
  pub add_finalizer : ObjectMeta → String → ObjectMeta
  pub remove_finalizer : ObjectMeta → String → ObjectMeta
  pub find_status_condition : List Condition → String → Option Condition
  pub set_status_condition : List Condition → Condition → List Condition
  -- Whether the recorder takes a warning about an object, or has had it within a minute
  -- (`WarningEventDeduper`, whose memory is the process's).
  pub is_due : List Call → String → String → Message → Bool
  -- `metav1.LabelSelectorAsSelector`.
  pub label_selector : String → Result String
  -- The SHA-256 of `DeterministicStorageBackendID`.
  pub deterministic_id : String → String → String
  -- How often `retry.RetryOnConflict` tries again: the steps of `retry.DefaultRetry` less one.
  pub retries : ℕ

-- What apimachinery documents of its condition helpers: a condition that was set is found with
-- its status, reason, message and generation, and the conditions of other types stay.
pub record ConditionLaws (api : Api) : Type 0 where
  pub find-set_self :
      (cs : List Condition) (c : Condition)
      → (f : Condition) × (api.find_status_condition (api.set_status_condition cs c) c.type
          ≡ some f)
        × (f.status ≡ c.status)
        × (f.reason ≡ c.reason)
        × (f.message ≡ c.message)
        × (f.observed_generation ≡ c.observed_generation)
  pub find-set_ne :
      (cs : List Condition) (c : Condition) (t : String)
      → t ≢ c.type
      → api.find_status_condition (api.set_status_condition cs c) t ≡ api.find_status_condition cs t

module _ (api : Api) where
  abbrev pub get_hibernate : String → String → Action Call TamossHibernate
  get_hibernate ns n = call (get "TamossHibernate" ns n) (λ log. api.hibernate_at log ns n)

  abbrev pub get_tamoss : String → String → Action Call Tamoss
  get_tamoss ns n = call (get "Tamoss" ns n) (λ log. api.tamoss_at log ns n)

  abbrev pub get_storage_backend : String → String → Action Call StorageBackend
  get_storage_backend ns n =
      call (get "StorageBackend" ns n) (λ log. api.storage_backend_at log ns n)

  abbrev pub get_cluster : String → String → Action Call Cluster
  get_cluster ns n = call (get "Cluster" ns n) (λ log. api.cluster_at log ns n)

  abbrev pub get_backup : String → String → Action Call Backup
  get_backup ns n = call (get "Backup" ns n) (λ log. api.backup_at log ns n)

  abbrev pub get_scheduled_backup : String → String → Action Call ScheduledBackup
  get_scheduled_backup ns n =
      call (get "ScheduledBackup" ns n) (λ log. api.scheduled_backup_at log ns n)

  abbrev pub get_autoscaler : String → String → Action Call Autoscaler
  get_autoscaler ns n =
      call (get "HorizontalPodAutoscaler" ns n) (λ log. api.autoscaler_at log ns n)

  abbrev pub get_deployment : String → String → Action Call Deployment
  get_deployment ns n = call (get "Deployment" ns n) (λ log. api.deployment_at log ns n)

  abbrev pub get_pods : String → String → Action Call (List PodPhase)
  get_pods ns selector = call (list_pods ns selector) (λ log. api.pods_at log ns selector)

  -- Any write.
  abbrev pub write : Call → Action Call (Unit {0})
  write c = call c (λ log. api.outcome log c)

  -- The writes whose answered object the code goes on with.
  abbrev pub send_tamoss_status : Tamoss → Action Call Tamoss
  send_tamoss_status t = call (patch_tamoss_status t) (λ log. api.patched_tamoss log t)

  abbrev pub send_hibernate_status : TamossHibernate → Action Call TamossHibernate
  send_hibernate_status h = call (patch_hibernate_status h) (λ log. api.patched_hibernate log h)

  abbrev pub send_cluster : Cluster → Action Call Cluster
  send_cluster c = call (patch_cluster c) (λ log. api.patched_cluster log c)

  abbrev pub send_backup : Backup → Action Call Backup
  send_backup b = call (create_backup b) (λ log. api.created_backup log b)

  abbrev pub current_time : Action Call Time
  current_time = observe api.now

  -- An event is sent and not waited for.
  abbrev pub emit : EventType → String → String → Message → Action Call (Unit {0})
  emit kind object reason message = call (event kind object reason message) (λ _. Result.ok tt)
