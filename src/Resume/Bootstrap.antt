-- ===== src/Resume/Bootstrap.antt =====
-- `reconcileResumeBootstrap` (tamoss_resume_bootstrap.go): whether an instance restores its
-- database, and the record of the restore.
use tamoss.Base.{
  String, ◌==◌, Bool, true, false, not, ◌&&◌, Option, none, some, List, [], ◌∷◌, ◌++◌, is_some,
  if◌then◌else◌,
}
use tamoss.Kube.{Message, sprintf, literal, ReconcileResult, done, requeue, ObjectReference}
use tamoss.Effect.{Action, return, lift, attempt, or_absent, ◌>>=◌, ◌>>◌}
use tamoss.Config.{Config, default_provider_readiness_probe_interval}
use tamoss.Resources.{Tamoss, Cluster, db_provider, provided_by_cnpg, resource_name}
use tamoss.Resources.Lifecycle.{
  LifecyclePhase, LifecycleStatus, ResumeSource, ResolvedRestore, ArtifactRetention, CleanupPhase,
}
use tamoss.Cluster.{Api, Call, normal, warning, get_cluster, emit}
use tamoss.Lifecycle.{set_lifecycle_operation_state, patch_lifecycle}
use tamoss.Resume.{Outcome, resolved, waiting, failure}
use tamoss.Resume.Resolve.{resolve_source}

-- `reconcileControl`.
pub data Control : Type 0 where
  go_on : Control
  stop : ReconcileResult → Control

-- `hibernationArtifactCleanupFinished` and `hibernationArtifactCleanupTerminal`.
unfoldable pub cleanup_finished : CleanupPhase → Bool
cleanup_finished CleanupPhase.retained = true
cleanup_finished CleanupPhase.completed = true
cleanup_finished p = false

unfoldable pub cleanup_terminal : CleanupPhase → Bool
cleanup_terminal CleanupPhase.retained = true
cleanup_terminal CleanupPhase.completed = true
cleanup_terminal CleanupPhase.blocked = true
cleanup_terminal p = false

-- Whether two retentions are of one artifact.
unfoldable pub same_artifact : ArtifactRetention → ArtifactRetention → Bool
same_artifact a b =
    a.manifest_key == b.manifest_key && a.storage_backend_name == b.storage_backend_name

-- `slices.DeleteFunc` of the artifact's own entry.
unfoldable pub without_artifact :
    ArtifactRetention → List ArtifactRetention → List ArtifactRetention
unfolding same_artifact
without_artifact a [] = []
without_artifact a (p ∷ ps) =
    let rest = without_artifact a ps in if same_artifact p a then rest else p ∷ rest

-- The restore that goes before, if its artifact is still to be cleaned up.
unfoldable pub superseded : ResolvedRestore → Option ResolvedRestore → List ArtifactRetention
unfolding same_artifact cleanup_finished
superseded next none = []
superseded next (some previous) =
    if is_some previous.retention.resumed_at
      && not (cleanup_finished previous.retention.cleanup.phase)
      && not (same_artifact previous.retention next.retention)
    then previous.retention ∷ []
    else []

-- The mutation that records a restore.
unfoldable pub record_restore : ResolvedRestore → LifecycleStatus → LifecycleStatus
unfolding without_artifact superseded set_lifecycle_operation_state
record_restore r l =
    set_lifecycle_operation_state LifecyclePhase.resuming "TamossResuming"
      (sprintf "Restoring the managed database from hibernation artifact %s"
        (r.retention.manifest_key ∷ []))
      none
      (record l {
        pending_artifact_cleanups =
            without_artifact r.retention l.pending_artifact_cleanups
            ++ superseded r l.resolved_restore;
        resolved_restore = some r;
      })

abbrev pub is_wakeable : LifecyclePhase → Bool
is_wakeable LifecyclePhase.hibernated = true
is_wakeable LifecyclePhase.failed = true
is_wakeable p = false

-- The source of an instance that wakes.
abbrev pub waking_source : LifecyclePhase → Option ObjectReference → Option ResumeSource
waking_source phase none = none
waking_source phase (some ref) =
    if is_wakeable phase
    then some (record { hibernation_ref = some ref.name; artifact = none })
    else none

abbrev pub or_declared : Option ResumeSource → Option ResumeSource → Option ResumeSource × Bool
or_declared (some s) declared = (some s, true)
or_declared none declared = (declared, false)

-- `resumeBootstrapSource`: the source, and whether the instance wakes.
unfoldable pub resume_bootstrap_source : Tamoss → Option ResumeSource × Bool
resume_bootstrap_source t =
    let l = t.status.lifecycle in
    if t.spec.hibernation.enabled
    then (none, false)
    else or_declared (waking_source l.phase l.last_hibernate_ref) t.spec.hibernation.resume_from

module _ (api : Api) where
  -- `recordWarning`.
  unfoldable pub record_warning : Tamoss → String → Message → Action Call (Unit {0})
  record_warning t reason message log =
      if api.is_due log t.metadata.name reason message
      then emit api warning t.metadata.name reason message log
      else return tt log

  module _ (cfg : Config) where
    -- `reconcileResumeBootstrap`, behind the resolution of the source.
    unfoldable pub settle : Tamoss → Outcome ResolvedRestore → Action Call (Tamoss × Control)
    unfolding record_warning record_restore
    settle t (failure reason message) = do
      failed ←
          patch_lifecycle api
            (set_lifecycle_operation_state LifecyclePhase.failed reason message none) t
      record_warning failed reason message
      return (failed, stop done)
    settle t (waiting reason message) = do
      waiting_one ←
          patch_lifecycle api
            (λ (l : LifecycleStatus). record l { reason = reason; message = message }) t
      return (waiting_one, stop (requeue default_provider_readiness_probe_interval))
    settle t (resolved r) = do
      emit api normal t.metadata.name "TamossResuming" (
          sprintf "Bootstrapping the managed database from hibernation artifact %s"
            (r.retention.manifest_key ∷ []))
      patched ← patch_lifecycle api (record_restore r) t
      return (
        record patched {
          status = record (patched.status) {
            lifecycle = record (patched.status.lifecycle) { resolved_restore = some r };
          };
        },
        go_on,
      )

    -- `reconcileResumeBootstrap`, behind the read of the database cluster.
    unfoldable pub bootstrap_unless_found :
        Tamoss → ResumeSource → Option Cluster → Action Call (Tamoss × Control)
    unfolding record_warning resolve_source settle
    bootstrap_unless_found t source (some c) = do
      record_warning t "ResumeSourceIgnored" (
          sprintf "spec.hibernation.resumeFrom is ignored because CNPG Cluster %s already exists"
            (c.metadata.name ∷ []))
      return (t, go_on)
    bootstrap_unless_found t source none = do
      outcome ← resolve_source api cfg t source
      settle t outcome

    -- `reconcileResumeBootstrap`, behind the choice of the source.
    unfoldable pub bootstrap_from :
        Tamoss → Option ResumeSource × Bool → Action Call (Tamoss × Control)
    unfolding db_provider record_warning bootstrap_unless_found
    bootstrap_from t (none, waking) = return (t, go_on)
    bootstrap_from t (some source, waking) =
        if is_some t.status.lifecycle.resolved_restore && not waking
        then return (t, go_on)
        else if not (db_provider t.spec.db == provided_by_cnpg)
        then (do
          record_warning t "UnsupportedProvider"
              (literal "spec.hibernation.resumeFrom requires a managed CNPG database backend")
          return (t, go_on))
        else (do
          read ← attempt (get_cluster api t.metadata.namespace (resource_name t "db"))
          found ← lift (or_absent read)
          bootstrap_unless_found t source found)

    -- `reconcileResumeBootstrap`: the instance as it is afterwards, and whether to go on.
    unfoldable pub reconcile_resume_bootstrap : Tamoss → Action Call (Tamoss × Control)
    unfolding resume_bootstrap_source bootstrap_from
    reconcile_resume_bootstrap t = bootstrap_from t (resume_bootstrap_source t)
