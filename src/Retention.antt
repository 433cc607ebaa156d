-- ===== src/Retention.antt =====
-- operator/internal/controller/tamoss_hibernation_cleanup.go: the retention of an artifact behind a
-- restore from it.
pub mod Guarded
use Prim.Native.Nat.{◌/◌, ◌%◌, ◌^◌}
use tamoss.Base.{
  ℕ, String, ◌==◌, Bool, true, false, not, ◌&&◌, ◌||◌, Option, none, some, List, [], ◌∷◌, ◌+◌, ◌-◌,
  ◌*◌, ltb, nat_eq, decided, is_some, if◌then◌else◌,
}
use tamoss.Kube.{
  Time, Message, Message-discrete, empty, sprintf, with_error, literal, Error, error_text,
  Condition, ReconcileResult, done, requeue,
}
use tamoss.Effect.{Result, ok, err, Action, return, lift, attempt, or_absent, call, ◌>>=◌, ◌>>◌}
use tamoss.Config.{default_provider_readiness_probe_interval}
use tamoss.Resources.{Tamoss, Cluster, resource_name}
use tamoss.Resources.Storage.{
  StorageBackend, StorageBackendSpec, RetentionMode, is_hibernate_destination,
  is_external_object_store,
}
use tamoss.Resources.Lifecycle.{
  LifecyclePhase, LifecycleStatus, ResolvedRestore, ArtifactRetention, CleanupPhase, CleanupStatus,
}
use tamoss.Cluster.{
  Api, Call, normal, get_cluster, get_storage_backend, delete_prefix, current_time, emit,
}
use tamoss.Lifecycle.{set_lifecycle_operation_state, patch_lifecycle}
use tamoss.Hibernate.Prefix.{hibernation_artifact_root_prefix}
use tamoss.Hibernate.Source.{is_true, storage_backend_from_destination}
use tamoss.Resume.Bootstrap.{cleanup_finished, cleanup_terminal, same_artifact, record_warning}
use tamoss.Cleanup.{
  cleanup_retry_interval, cleanup_of, blocked, retained, update_pending, with_pending_cleanup,
  with_restore_cleanup, with_cleanup, is_resuming, with_resumed, holds,
}

abbrev second : ℕ
second = 1000000000

-- `time.Duration(ttl) * time.Second`: the bits of an `int64` of nanoseconds, with its wrap-around.
unfoldable pub ttl_duration : ℕ → ℕ
ttl_duration ttl = (ttl * second) % 2 ^ 64

-- `time.Until(resumedAt.Add(d)) > 0`, for times in seconds; `d` is negative from the sign bit on.
unfoldable pub is_early : Time → Time → ℕ → Bool
is_early now resumed_at d =
    if ltb d (2 ^ 63)
    then ltb (now * second) (resumed_at * second + d)
    else ltb (now * second + 2 ^ 64) (resumed_at * second + d)

-- The nanoseconds of `resumedAt.Add(d)`, where that is not before the epoch.
unfoldable pub due_nanoseconds : Time → ℕ → ℕ
due_nanoseconds resumed_at d =
    if ltb d (2 ^ 63) then resumed_at * second + d else resumed_at * second + d - 2 ^ 64

module _ (api : Api) where
  unfoldable pub cluster_ready : Option Cluster → Bool
  unfolding holds
  cluster_ready none = false
  cluster_ready (some c) = holds (api.find_status_condition c.conditions "Ready")

  -- `restoredDatabaseReady`.
  unfoldable pub restored_database_ready : Tamoss → Action Call Bool
  unfolding cluster_ready
  restored_database_ready t = do
    read ← attempt (get_cluster api t.metadata.namespace (resource_name t "db"))
    found ← lift (or_absent read)
    return (cluster_ready found)

  -- `recordArtifactCleanup`: the instance as it is afterwards.
  unfoldable pub record_cleanup : Tamoss → ArtifactRetention → CleanupStatus → Action Call Tamoss
  unfolding with_cleanup record_warning
  record_cleanup t a cleanup = do
    patched ← patch_lifecycle api (with_cleanup a cleanup) t
    if (cleanup.reason == "ArtifactCleanupBlocked" || cleanup.reason == "ArtifactCleanupRetrying")
          && (not (a.cleanup.reason == cleanup.reason)
              || not (decided (Message-discrete a.cleanup.message cleanup.message)))
        then (do record_warning api patched cleanup.reason cleanup.message; return patched)
        else return patched

  -- A cleanup's state, with no other look asked for.
  unfoldable pub settle_cleanup :
      Tamoss → ArtifactRetention → CleanupStatus → Action Call (Tamoss × ReconcileResult)
  unfolding record_cleanup
  settle_cleanup t a cleanup = do patched ← record_cleanup t a cleanup; return (patched, done)

  -- `deleteResumeArtifact`, behind the deletion.
  unfoldable pub artifact_deleted :
      Tamoss → ArtifactRetention → String → Result ℕ → Action Call (Tamoss × ReconcileResult)
  unfolding record_cleanup
  artifact_deleted t a prefix (err e) = do
    patched ← record_cleanup t a (
        cleanup_of CleanupPhase.pending "ArtifactCleanupRetrying" (
          with_error "Hibernation artifact cleanup for prefix %s failed, retrying: %v" (prefix ∷ [])
            e))
    return (patched, requeue cleanup_retry_interval)
  artifact_deleted t a prefix (ok deleted) = do
    now ← current_time api
    let message = sprintf "Deleted hibernation artifact prefix %s" (prefix ∷ [])
    patched ← record_cleanup t a (record {
      phase = CleanupPhase.completed;
      reason = "ArtifactCleanupComplete";
      message = message;
      objects_deleted = deleted;
      completed_at = some now;
    })
    emit api normal patched.metadata.name "ArtifactCleanupComplete" message
    return (patched, done)

  -- `deleteResumeArtifact`, behind the check of the manifest key.
  unfoldable pub delete_artifact_prefix :
      Tamoss
      → StorageBackendSpec
      → ArtifactRetention
      → Result String
      → Action Call (Tamoss × ReconcileResult)
  unfolding settle_cleanup blocked artifact_deleted
  delete_artifact_prefix t spec a (err e) = settle_cleanup t a (blocked (error_text e))
  delete_artifact_prefix t spec a (ok prefix) = do
    deleted ← attempt (call (delete_prefix spec prefix) (λ log. api.delete_objects log spec prefix))
    artifact_deleted t a prefix deleted

  -- `deleteResumeArtifact`.
  unfoldable pub delete_resume_artifact :
      Tamoss → StorageBackendSpec → ArtifactRetention → Action Call (Tamoss × ReconcileResult)
  unfolding delete_artifact_prefix
  delete_resume_artifact t spec a =
      delete_artifact_prefix t spec a (hibernation_artifact_root_prefix a.manifest_key)

  -- A deletion that is due later, at a time in nanoseconds; the wait is in whole seconds, rounded up.
  unfoldable pub schedule_cleanup :
      Tamoss → ArtifactRetention → ℕ → Time → Action Call (Tamoss × ReconcileResult)
  unfolding record_cleanup
  schedule_cleanup t a due now = do
    patched ← record_cleanup t a (
        cleanup_of CleanupPhase.pending "ArtifactCleanupPending" (
          sprintf "Hibernation artifact cleanup is scheduled for %s"
            (api.format_time (due / second) ∷ [])))
    return (patched, requeue ((due - now * second + (second - 1)) / second))

  -- The mode TTL at a time.
  unfoldable pub retain_at :
      Tamoss
      → StorageBackendSpec
      → ArtifactRetention
      → Time
      → Time
      → Action Call (Tamoss × ReconcileResult)
  unfolding schedule_cleanup delete_resume_artifact ttl_duration is_early due_nanoseconds
  retain_at t spec a resumed_at now =
      let d = ttl_duration spec.ttl_seconds_after_resume in
      if is_early now resumed_at d
      then schedule_cleanup t a (due_nanoseconds resumed_at d) now
      else delete_resume_artifact t spec a

  -- `reconcileArtifactRetention` in the mode TTL: `resumed_at` is the time of the restore.
  unfoldable pub retain_until :
      Tamoss
      → StorageBackendSpec
      → ArtifactRetention
      → Time
      → Action Call (Tamoss × ReconcileResult)
  unfolding settle_cleanup blocked retain_at
  retain_until t spec a resumed_at =
      if nat_eq spec.ttl_seconds_after_resume 0
      then settle_cleanup t a (
          blocked (
            literal
              "hibernate.retention.ttlSecondsAfterResume must be greater than zero when retention mode is TTL"))
      else (do now ← current_time api; retain_at t spec a resumed_at now)

  -- The switch on the retention mode.
  unfoldable pub apply_retention :
      RetentionMode
      → Tamoss
      → StorageBackendSpec
      → ArtifactRetention
      → Time
      → Action Call (Tamoss × ReconcileResult)
  unfolding settle_cleanup retained blocked delete_resume_artifact retain_until
  apply_retention RetentionMode.unset t spec a resumed_at = settle_cleanup t a retained
  apply_retention RetentionMode.retain t spec a resumed_at = settle_cleanup t a retained
  apply_retention RetentionMode.delete_after_resume t spec a resumed_at =
      delete_resume_artifact t spec a
  apply_retention RetentionMode.ttl t spec a resumed_at = retain_until t spec a resumed_at
  apply_retention (RetentionMode.unsupported mode) t spec a resumed_at =
      settle_cleanup t a (blocked (sprintf "unsupported hibernation retention mode %q" (mode ∷ [])))

  -- `reconcileArtifactRetention` of a consumed artifact, behind the read of its backend.
  unfoldable pub retain_on :
      Tamoss
      → ArtifactRetention
      → Time
      → Option StorageBackend
      → Action Call (Tamoss × ReconcileResult)
  unfolding settle_cleanup blocked storage_backend_from_destination is_hibernate_destination
      is_external_object_store apply_retention
  retain_on t a resumed_at none = settle_cleanup t a (
      blocked (
        sprintf "Artifact StorageBackend %s was not found for cleanup"
          (a.storage_backend_name ∷ [])))
  retain_on t a resumed_at (some b) =
      let spec = storage_backend_from_destination api b in
      if not (is_hibernate_destination spec) || not (is_external_object_store spec)
      then settle_cleanup t a (
          blocked (
            sprintf
              "Artifact StorageBackend %s must be an external-s3 hibernate destination for cleanup"
              (b.metadata.name ∷ [])))
      else apply_retention spec.retention_mode t spec a resumed_at

  -- The record of the restore's end, on which a later reconcile deletes.
  unfoldable pub record_resumed :
      Tamoss → ArtifactRetention → Bool → Action Call (Tamoss × ReconcileResult)
  unfolding with_resumed
  record_resumed t a ready = if not ready then return (t, done) else (do
    now ← current_time api
    patched ← patch_lifecycle api (λ (l : LifecycleStatus). with_resumed now l l.resolved_restore) t
    emit api normal patched.metadata.name "TamossReady"
        (sprintf "Restore from hibernation artifact %s completed" (a.manifest_key ∷ []))
    return (patched, requeue default_provider_readiness_probe_interval))

  unfoldable pub retain_consumed :
      Tamoss → ArtifactRetention → Option Time → Action Call (Tamoss × ReconcileResult)
  unfolding restored_database_ready record_resumed retain_on
  retain_consumed t a none = do ready ← restored_database_ready t; record_resumed t a ready
  retain_consumed t a (some resumed_at) = do
    read ← attempt (get_storage_backend api t.metadata.namespace a.storage_backend_name)
    found ← lift (or_absent read)
    retain_on t a resumed_at found

  -- `reconcileArtifactRetention`: the instance as it is afterwards, and the result.
  unfoldable pub reconcile_artifact_retention :
      Tamoss → ArtifactRetention → Action Call (Tamoss × ReconcileResult)
  unfolding cleanup_terminal retain_consumed
  reconcile_artifact_retention t a =
      if cleanup_terminal a.cleanup.phase
      then return (t, done)
      else retain_consumed t a a.resumed_at

  -- The earlier of two looks; zero asks for none.
  unfoldable pub sooner : ReconcileResult → ReconcileResult → ReconcileResult
  sooner pending result =
      if ltb 0 pending.requeue_after
        && (nat_eq result.requeue_after 0 || ltb pending.requeue_after result.requeue_after)
      then requeue pending.requeue_after
      else result

  -- The loop of `reconcileResumeArtifactRetention`, over the cleanups that were pending before it.
  unfoldable pub retain_pending :
      Tamoss → ReconcileResult → List ArtifactRetention → Action Call (Tamoss × ReconcileResult)
  unfolding sooner
  retain_pending t result [] = return (t, result)
  retain_pending t result (a ∷ rest) = reconcile_artifact_retention t a >>= λ (u, pending).
      retain_pending u (sooner pending result) rest

  unfoldable pub retain_restore :
      Tamoss → Option ResolvedRestore → Action Call (Tamoss × ReconcileResult)
  unfolding reconcile_artifact_retention
  retain_restore t none = return (t, done)
  retain_restore t (some r) = reconcile_artifact_retention t r.retention

  -- `reconcileResumeArtifactRetention`.
  unfoldable pub reconcile_resume_artifact_retention :
      Tamoss → Action Call (Tamoss × ReconcileResult)
  unfolding retain_restore retain_pending
  reconcile_resume_artifact_retention t = do
    (u, result) ← retain_restore t t.status.lifecycle.resolved_restore
    retain_pending u result u.status.lifecycle.pending_artifact_cleanups
