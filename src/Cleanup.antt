-- ===== src/Cleanup.antt =====
-- The states of an artifact's cleanup and their record in an instance's lifecycle status
-- (operator/internal/controller/tamoss_hibernation_cleanup.go).
use tamoss.Base.{
  ℕ, String, Bool, true, false, not, Option, none, some, List, [], ◌∷◌, if◌then◌else◌,
}
use tamoss.Kube.{Time, Message, sprintf, literal, Condition}
use tamoss.Resources.Lifecycle.{
  LifecyclePhase, LifecycleStatus, ResolvedRestore, ArtifactRetention, CleanupPhase, CleanupStatus,
}
use tamoss.Lifecycle.{set_lifecycle_operation_state}
use tamoss.Hibernate.Source.{is_true}
use tamoss.Resume.Bootstrap.{cleanup_finished, same_artifact}

-- `hibernationCleanupRetryInterval`, in seconds.
abbrev pub cleanup_retry_interval : ℕ
cleanup_retry_interval = 60

abbrev pub cleanup_of : CleanupPhase → String → Message → CleanupStatus
cleanup_of phase reason message = record {
  phase = phase;
  reason = reason;
  message = message;
  objects_deleted = 0;
  completed_at = none;
}

-- `blockedArtifactCleanup`.
unfoldable pub blocked : Message → CleanupStatus
blocked message = cleanup_of CleanupPhase.blocked "ArtifactCleanupBlocked" message

unfoldable pub retained : CleanupStatus
retained =
    cleanup_of CleanupPhase.retained "ArtifactCleanupRetained"
      (literal "Hibernation artifact retained by StorageBackend policy")

-- The loop of `recordArtifactCleanup` over the pending cleanups: the first of the artifact's is
-- taken off if the cleanup is finished, and has the new state otherwise.
unfoldable pub update_pending :
    ArtifactRetention → CleanupStatus → List ArtifactRetention → List ArtifactRetention
unfolding same_artifact cleanup_finished
update_pending a cleanup [] = []
update_pending a cleanup (p ∷ ps) =
    let rest = update_pending a cleanup ps in
    if not (same_artifact p a)
    then p ∷ rest
    else if cleanup_finished cleanup.phase
    then ps
    else record p { cleanup = cleanup } ∷ ps

-- The mutation of `recordArtifactCleanup`.
unfoldable pub with_pending_cleanup :
    ArtifactRetention → CleanupStatus → LifecycleStatus → LifecycleStatus
unfolding update_pending
with_pending_cleanup a cleanup l = record l {
  pending_artifact_cleanups = update_pending a cleanup l.pending_artifact_cleanups;
}

unfoldable pub with_restore_cleanup :
    ArtifactRetention → CleanupStatus → LifecycleStatus → Option ResolvedRestore → LifecycleStatus
unfolding same_artifact with_pending_cleanup
with_restore_cleanup a cleanup l none = with_pending_cleanup a cleanup l
with_restore_cleanup a cleanup l (some current) =
    if same_artifact current.retention a
    then record l {
      resolved_restore =
          some (record current { retention = record (current.retention) { cleanup = cleanup } });
    }
    else with_pending_cleanup a cleanup l

unfoldable pub with_cleanup : ArtifactRetention → CleanupStatus → LifecycleStatus → LifecycleStatus
unfolding with_restore_cleanup
with_cleanup a cleanup l = with_restore_cleanup a cleanup l l.resolved_restore

abbrev pub is_resuming : LifecyclePhase → Bool
is_resuming LifecyclePhase.resuming = true
is_resuming p = false

-- The mutation that records that a restore is complete.
unfoldable pub with_resumed : Time → LifecycleStatus → Option ResolvedRestore → LifecycleStatus
unfolding set_lifecycle_operation_state
with_resumed now l none = l
with_resumed now l (some r) =
    let stamped = record l {
      resolved_restore =
          some (record r { retention = record (r.retention) { resumed_at = some now } });
    } in
    if is_resuming l.phase
    then set_lifecycle_operation_state LifecyclePhase.running "TamossReady"
        (sprintf "Restore from hibernation artifact %s completed" (r.retention.manifest_key ∷ []))
        none stamped
    else stamped

-- Whether a condition is there and holds.
unfoldable pub holds : Option Condition → Bool
holds none = false
holds (some c) = is_true c.status
