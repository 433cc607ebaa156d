-- ===== src/Examples/Restore.antt =====
-- The restore from the example's artifact, and its cleanup.
use mathlib.Core.Logic.{◌↔◌}
use tamoss.Base.{
  String, ◌==◌, eq_iff, ◌≡◌, ◌≢◌, refl, Bool, true, false, Option, some, List, [], ◌∷◌, arith,
}
use tamoss.Base.Text.{trim_space}
use tamoss.Effect.{ok}
use tamoss.Effect.Preserves.{Every}
use tamoss.Releases.{supports}
use tamoss.Resources.Manifest.{Manifest}
use tamoss.Resources.Lifecycle.{Artifact, ArtifactRetention, ResolvedRestore}
use tamoss.Hibernate.Source.{no_artifact}
use tamoss.Hibernate.Capture.{build_hibernation_manifest}
use tamoss.Hibernate.Prefix.{hibernation_artifact_root_prefix}
use tamoss.Hibernate.SafePrefix.{
  IsArtifactPrefix, hibernation_artifact_root_prefix-IsArtifactPrefix,
}
use tamoss.Resume.Manifest.{validate_resume_manifest}
use tamoss.Resume.Resolve.{Location, restore_of_read, restore_from_manifest}
use tamoss.Resume.Trust.{
  IsResumable, IsTrusted, validate_resume_manifest_iff, restore_of_read-IsTrusted,
}
use tamoss.Base.{not, ◌&&◌, ◌||◌}
use tamoss.Resources.Lifecycle.{LifecycleStatus}
use tamoss.Resume.Bootstrap.{same_artifact, record_restore}
use tamoss.Resume.Pending.{among, awaits_cleanup, among-record_restore}
use tamoss.Examples.Cluster.{running}
use tamoss.Retention.{reconcile_artifact_retention}
use tamoss.Retention.Guarded.{MayCall, reconcile_artifact_retention-Every}
use tamoss.Examples.Cluster.{api, config, instance, store, target}

abbrev key : String
key = "hibernations/tamoss/nightly/manifest.json"

abbrev artifact : Artifact
artifact = record no_artifact {
  driver = "cnpgPhysical";
  manifest_key = key;
  cnpg_backup = record (no_artifact.cnpg_backup) {
    name = "nightly";
    phase = "completed";
    backup_id = "20260101";
    destination_path = "s3://hibernate/hibernations/tamoss/nightly/cnpg";
  };
}

abbrev manifest : Manifest
manifest =
    build_hibernation_manifest "2026-01-01T00:00:00Z" instance store store.spec artifact "tamoss-db"

abbrev location : Location
location = record {
  storage_backend_name = "archive";
  manifest_key = key;
  trusted_checksum = "sha256:1";
}

abbrev restore : ResolvedRestore
restore = restore_from_manifest store.spec "archive" key "sha256:1" manifest

validate_resume_manifest_iff_example :
    (validate_resume_manifest manifest key target ≡ ok tt) ↔ IsResumable manifest key target
validate_resume_manifest_iff_example = validate_resume_manifest_iff manifest key target

restore_of_read-IsTrusted_example :
    IsTrusted config instance store.spec location (ok (manifest, "sha256:1")) restore
unfolding restore_of_read build_hibernation_manifest trim_space supports tamoss.Base.Assoc.find
restore_of_read-IsTrusted_example =
    restore_of_read-IsTrusted config instance store.spec "archive" location
      (ok (manifest, "sha256:1")) restore refl

hibernation_artifact_root_prefix-IsArtifactPrefix_example :
    IsArtifactPrefix key "hibernations/tamoss/nightly/"
unfolding hibernation_artifact_root_prefix trim_space tamoss.Base.Text.has_prefix
    tamoss.Base.Text.clean tamoss.Base.Text.has_suffix tamoss.Base.Text.trim_suffix
hibernation_artifact_root_prefix-IsArtifactPrefix_example =
    hibernation_artifact_root_prefix-IsArtifactPrefix key "hibernations/tamoss/nightly/" refl

-- The artifact of a restore that ended at 1000, with a TTL of an hour, at 5000.
abbrev consumed : ArtifactRetention
consumed = record (restore.retention) { resumed_at = some 1000 }

reconcile_artifact_retention-Every_example :
    Every (MayCall api consumed) (reconcile_artifact_retention api instance consumed []).1
unfolding Every
reconcile_artifact_retention-Every_example =
    reconcile_artifact_retention-Every api consumed instance [] tt

-- A second restore of the example's instance: the artifact of the first is still to be deleted.
abbrev resumed : LifecycleStatus
resumed = record running { resolved_restore = some (record restore { retention = consumed }) }

abbrev other_restore : ResolvedRestore
other_restore =
    restore_from_manifest store.spec "archive" "hibernations/tamoss/weekly/manifest.json" "sha256:2"
      manifest

among-record_restore_example :
    among consumed (record_restore other_restore resumed).pending_artifact_cleanups ≡ (
      not (same_artifact consumed other_restore.retention)
      && (among consumed [] || among consumed (awaits_cleanup resumed.resolved_restore)))
among-record_restore_example = among-record_restore consumed other_restore resumed
