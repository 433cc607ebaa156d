-- ===== src/Resume/Pending.antt =====
-- No consumed artifact is forgotten: the cleanups that are pending behind the record of a restore.
use tamoss.Base.{
  eq_iff, ◌≡◌, refl, Bool, not, ◌&&◌, ◌||◌, Option, none, some, List, [], ◌∷◌, ◌++◌, any, is_some,
  arith, if◌then◌else◌,
}
use tamoss.Resources.Lifecycle.{LifecycleStatus, ResolvedRestore, ArtifactRetention}
use tamoss.Lifecycle.{set_lifecycle_operation_state}
use tamoss.Resume.Bootstrap.{
  cleanup_finished, same_artifact, without_artifact, superseded, record_restore,
}

-- Whether an artifact is among some.
abbrev pub among : ArtifactRetention → List ArtifactRetention → Bool
among a ps = any (λ p. same_artifact p a) ps

-- A restore that was resumed from, and whose cleanup is not finished.
unfoldable pub awaits_cleanup : Option ResolvedRestore → List ArtifactRetention
awaits_cleanup none = []
awaits_cleanup (some r) =
    if is_some r.retention.resumed_at && not (cleanup_finished r.retention.cleanup.phase)
    then r.retention ∷ []
    else []

among-++ :
    (a : ArtifactRetention) (ps qs : List ArtifactRetention)
    → among a (ps ++ qs) ≡ (among a ps || among a qs)
among-++ a [] qs = refl
among-++ a (p ∷ ps) qs = ground (arith, among-++ a ps qs)

among-without_artifact :
    (a r : ArtifactRetention) (ps : List ArtifactRetention)
    → among a (without_artifact r ps) ≡ (not (same_artifact a r) && among a ps)
unfolding without_artifact same_artifact
among-without_artifact a r [] = ground arith
among-without_artifact a r (p ∷ ps) = ground (
  arith,
  eq_iff p.manifest_key r.manifest_key,
  eq_iff p.storage_backend_name r.storage_backend_name,
  eq_iff a.manifest_key r.manifest_key,
  eq_iff a.storage_backend_name r.storage_backend_name,
  eq_iff p.manifest_key a.manifest_key,
  eq_iff p.storage_backend_name a.storage_backend_name,
  among-without_artifact a r ps,
)

among-superseded :
    (a : ArtifactRetention) (r : ResolvedRestore) (previous : Option ResolvedRestore)
    → among a (superseded r previous)
      ≡ (not (same_artifact a r.retention) && among a (awaits_cleanup previous))
unfolding superseded awaits_cleanup same_artifact
among-superseded a r none = ground arith
among-superseded a r (some p) = ground (
  arith,
  eq_iff p.retention.manifest_key r.retention.manifest_key,
  eq_iff p.retention.storage_backend_name r.retention.storage_backend_name,
  eq_iff a.manifest_key r.retention.manifest_key,
  eq_iff a.storage_backend_name r.retention.storage_backend_name,
  eq_iff p.retention.manifest_key a.manifest_key,
  eq_iff p.retention.storage_backend_name a.storage_backend_name,
)

-- When a restore is recorded, the artifacts with a pending cleanup are then exactly those that
-- were pending before, or that of the restore before if it was resumed from and its cleanup is not
-- finished, without the artifact that is restored from.
pub among-record_restore :
    (a : ArtifactRetention) (r : ResolvedRestore) (l : LifecycleStatus)
    → among a (record_restore r l).pending_artifact_cleanups ≡ (
        not (same_artifact a r.retention)
        && (among a l.pending_artifact_cleanups || among a (awaits_cleanup l.resolved_restore)))
unfolding record_restore set_lifecycle_operation_state
among-record_restore a r l = ground (
  arith,
  among-++ a (without_artifact r.retention l.pending_artifact_cleanups)
      (superseded r l.resolved_restore),
  among-without_artifact a r.retention l.pending_artifact_cleanups,
  among-superseded a r l.resolved_restore,
)
