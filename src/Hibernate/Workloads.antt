-- ===== src/Hibernate/Workloads.antt =====
-- What a hibernation does to the objects of an instance (tamosshibernate_controller.go): it suspends
-- the scheduled backup, points the cluster's backups at the destination, stops the workloads,
-- launches the backup, and removes the cluster.
use mathlib.Core.Bool.{not}
use tamoss.Base.{
  ℕ, String, ◌==◌, Bool, true, false, ◌&&◌, ◌||◌, Option, none, some, List, [], ◌∷◌, any, is_none,
  nat_eq, if◌then◌else◌,
}
use tamoss.Base.Text.{concat, path_join}
use tamoss.Kube.{errorf, wrapf}
use tamoss.Effect.{
  Result, ok, err, Action, return, throw, lift, attempt, or_absent, ignore_not_found, ◌>>=◌, ◌>>◌,
}
use tamoss.Resources.{
  Tamoss, TamossHibernate, Cluster, Backup, backup_unset, ScheduledBackup, BarmanObjectStore,
  Autoscaler, Deployment, PodPhase, pod_succeeded, pod_failed, resource_name,
}
use tamoss.Resources.Storage.{StorageBackend, StorageBackendSpec}
use tamoss.Cluster.{
  Api, Call, get_cluster, get_backup, get_scheduled_backup, get_autoscaler, get_deployment,
  get_pods, send_cluster, delete_cluster, send_backup, patch_scheduled_backup, delete_autoscaler,
  patch_deployment, write,
}
use tamoss.Hibernate.Prefix.{hibernate_destination_prefix, hibernate_driver}
use tamoss.Hibernate.Source.{storage_backend_from_destination}

-- `storageBackendAccessKey`, `storageBackendSecretKey` (storagebackend_credentials.go).
unfoldable pub storage_backend_access_key : StorageBackendSpec → String
storage_backend_access_key s =
    if s.access_key_key == "" then "RUSTFS_ACCESS_KEY" else s.access_key_key

unfoldable pub storage_backend_secret_key : StorageBackendSpec → String
storage_backend_secret_key s =
    if s.secret_key_key == "" then "RUSTFS_SECRET_KEY" else s.secret_key_key

-- `hibernateBarmanObjectStore`.
unfoldable pub hibernate_barman_object_store :
    String → TamossHibernate → StorageBackendSpec → BarmanObjectStore
unfolding storage_backend_access_key storage_backend_secret_key hibernate_destination_prefix
hibernate_barman_object_store server_name h s = record {
  endpoint_url = s.endpoint_url;
  destination_path = concat (
      "s3://"
      ∷ s.bucket_name
      ∷ "/"
      ∷ path_join (hibernate_destination_prefix h ∷ h.metadata.name ∷ "cnpg" ∷ [])
      ∷ []);
  server_name = server_name;
  secret_name = s.existing_secret;
  access_key_key = storage_backend_access_key s;
  secret_key_key = storage_backend_secret_key s;
}

abbrev pub is_live_pod : PodPhase → Bool
is_live_pod pod_succeeded = false
is_live_pod pod_failed = false
is_live_pod p = true

abbrev pub or_one : Option ℕ → ℕ
or_one none = 1
or_one (some n) = n

abbrev pub is_positive : Option ℕ → Bool
is_positive none = false
is_positive (some n) = not (nat_eq n 0)

-- The status of a deployment still counts replicas.
unfoldable pub has_replicas : Deployment → Bool
has_replicas d =
    not (nat_eq d.status_replicas 0)
    || not (nat_eq d.ready_replicas 0)
    || not (nat_eq d.available_replicas 0)
    || not (nat_eq d.updated_replicas 0)
    || is_positive d.terminating_replicas

-- The components in the order in which they are stopped.
abbrev pub quiesced_components : List String
quiesced_components = "worker" ∷ "api" ∷ "ui" ∷ "console" ∷ []

module _ (api : Api) where
  -- `ensureHibernateCNPGBackupConfiguration`, which leaves the cluster as it was patched.
  unfoldable pub ensure_backup_configuration :
      Cluster → TamossHibernate → StorageBackend → Action Call Cluster
  unfolding hibernate_barman_object_store storage_backend_from_destination
  ensure_backup_configuration c h b = do
    let store =
        hibernate_barman_object_store c.metadata.name h (storage_backend_from_destination api b)
    send_cluster api (record c { backup = some store })

  abbrev pub is_suspended : Option Bool → Bool
  is_suspended (some true) = true
  is_suspended o = false

  -- `suspendHibernateScheduledBackup`, behind the read.
  unfoldable pub suspend_found : Tamoss → Option ScheduledBackup → Action Call Unit
  suspend_found t none = return tt
  suspend_found t (some s) =
      if not (api.is_controlled_by s.metadata t.metadata)
      then throw (
          errorf "CNPG ScheduledBackup %s is not owned by Tamoss %s"
            (s.metadata.name ∷ t.metadata.name ∷ []))
      else if is_suspended s.suspend
      then return tt
      else write api (patch_scheduled_backup (record s { suspend = some true }))

  -- `suspendHibernateScheduledBackup`.
  unfoldable pub suspend_scheduled_backup : Tamoss → Action Call Unit
  unfolding suspend_found
  suspend_scheduled_backup t = do
    read ← attempt (get_scheduled_backup api t.metadata.namespace (resource_name t "db-backup"))
    found ← lift (or_absent read)
    suspend_found t found

  -- One component's autoscaler, in the loop of `quiesceTamossWorkloads`: whether there was none.
  unfoldable pub quiesce_autoscaler : Tamoss → Option Autoscaler → Action Call Bool
  quiesce_autoscaler t none = return true
  quiesce_autoscaler t (some a) =
      if not (api.is_controlled_by a.metadata t.metadata)
      then throw (
          errorf "HorizontalPodAutoscaler %s is not owned by Tamoss %s"
            (a.metadata.name ∷ t.metadata.name ∷ []))
      else do
        deleted ← attempt (write api (delete_autoscaler a))
        lift (ignore_not_found deleted)
        return false

  -- Scales a deployment to zero unless it is: whether it was.
  unfoldable pub scale_down : Deployment → Action Call Bool
  scale_down d =
      if nat_eq (or_one d.replicas) 0
      then return true
      else do write api (patch_deployment (record d { replicas = some 0 })); return false

  abbrev resolved_selector : Deployment → Result String → Result String
  resolved_selector d (err e) =
      err (wrapf "resolve Deployment %s pod selector: %w" (d.metadata.name ∷ []) e)
  resolved_selector d (ok selector) = ok selector

  -- One component's deployment: whether it is at rest.
  unfoldable pub quiesce_deployment : Tamoss → Option Deployment → Action Call Bool
  unfolding scale_down has_replicas
  quiesce_deployment t none = return true
  quiesce_deployment t (some d) =
      if not (api.is_controlled_by d.metadata t.metadata)
      then throw (
          errorf "deployment %s is not owned by Tamoss %s" (d.metadata.name ∷ t.metadata.name ∷ []))
      else do
        scaled ← scale_down d
        selector ← lift (resolved_selector d (api.label_selector d.selector))
        pods ← get_pods api t.metadata.namespace selector
        return (scaled && not (has_replicas d) && not (any is_live_pod pods))

  -- One round of the loop in `quiesceTamossWorkloads`.
  unfoldable pub quiesce_component : Tamoss → String → Action Call Bool
  unfolding quiesce_autoscaler quiesce_deployment
  quiesce_component t component = do
    let name = resource_name t component
    read ← attempt (get_autoscaler api t.metadata.namespace name)
    autoscaler ← lift (or_absent read)
    unscaled ← quiesce_autoscaler t autoscaler
    answer ← attempt (get_deployment api t.metadata.namespace name)
    deployment ← lift (or_absent answer)
    rested ← quiesce_deployment t deployment
    return (unscaled && rested)

  unfoldable pub quiesce_components : Tamoss → List String → Action Call Bool
  quiesce_components t [] = return true
  quiesce_components t (component ∷ rest) = quiesce_component t component >>= λ quiet.
      quiesce_components t rest >>= λ quiesced. return (quiet && quiesced)

  -- `quiesceTamossWorkloads`: whether every workload is at rest.
  unfoldable pub quiesce_tamoss_workloads : Tamoss → Action Call Bool
  unfolding quiesce_components
  quiesce_tamoss_workloads t = quiesce_components t quiesced_components

  -- `deprovisionHibernateSource`, behind the read: whether the cluster is gone.
  unfoldable pub deprovision_found : Tamoss → Option Cluster → Action Call Bool
  deprovision_found t none = return true
  deprovision_found t (some c) =
      if not (api.is_controlled_by c.metadata t.metadata)
      then throw (
          errorf "CNPG Cluster %s is not owned by Tamoss %s"
            (c.metadata.name ∷ t.metadata.name ∷ []))
      else if is_none c.metadata.deletion_timestamp
      then (do
        deleted ← attempt (write api (delete_cluster c))
        lift (ignore_not_found deleted)
        return false)
      else return false

  -- `deprovisionHibernateSource`.
  unfoldable pub deprovision_source : Tamoss → Action Call Bool
  unfolding deprovision_found
  deprovision_source t = do
    read ← attempt (get_cluster api t.metadata.namespace (resource_name t "db"))
    found ← lift (or_absent read)
    deprovision_found t found

  -- The backup that `ensureHibernateCNPGBackup` creates, before its owner is set.
  unfoldable pub desired_backup : TamossHibernate → Tamoss → Backup
  unfolding hibernate_driver
  desired_backup h t = record {
    metadata = record {
      name = h.metadata.name;
      namespace = h.metadata.namespace;
      uid = "";
      generation = 0;
      labels =
          ("app.kubernetes.io/name", "tamoss")
          ∷ ("app.kubernetes.io/instance", t.metadata.name)
          ∷ ("app.kubernetes.io/component", "hibernate")
          ∷ ("app.kubernetes.io/managed-by", "tamoss-operator")
          ∷ ("tamoss.livewyer.io/tamosshibernate", h.metadata.name)
          ∷ ("tamoss.livewyer.io/tamosshibernate-driver", hibernate_driver h)
          ∷ [];
      annotations = [];
      finalizers = [];
      owner_references = [];
      deletion_timestamp = none;
    };
    cluster = resource_name t "db";
    status = record {
      phase = backup_unset;
      destination_path = "";
      backup_id = "";
      error = "";
      command_error = "";
    };
  }

  -- `ensureHibernateCNPGBackup`, behind the read: the backup, and whether it was created now.
  unfoldable pub ensure_found_backup :
      TamossHibernate → Tamoss → Option Backup → Action Call (Backup × Bool)
  unfolding desired_backup
  ensure_found_backup h t (some b) = return (b, false)
  ensure_found_backup h t none = do
    let desired = desired_backup h t
    metadata ← lift (api.set_controller_reference h.metadata desired.metadata)
    created ← send_backup api (record desired { metadata = metadata })
    return (created, true)

  -- `ensureHibernateCNPGBackup`.
  unfoldable pub ensure_backup : TamossHibernate → Tamoss → Action Call (Backup × Bool)
  unfolding ensure_found_backup
  ensure_backup h t = do
    read ← attempt (get_backup api h.metadata.namespace h.metadata.name)
    found ← lift (or_absent read)
    ensure_found_backup h t found
