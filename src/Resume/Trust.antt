-- ===== src/Resume/Trust.antt =====
-- What a restore rests on: the manifest that it was made from is the trusted one, and it is valid.
use mathlib.Core.Logic.{◌↔◌}
use tamoss.Base.{String, eq_iff, ◌≡◌, ◌≢◌, ◌⊎◌, sym, ◌∙◌, true, none, arith}
use tamoss.Base.Text.{trim_space}
use tamoss.Effect.{Result, ok, err}
use tamoss.Releases.{Target, supports}
use tamoss.Config.{Config, schema_of}
use tamoss.Resources.{Tamoss}
use tamoss.Resources.Storage.{StorageBackendSpec}
use tamoss.Resources.Manifest.{Manifest}
use tamoss.Resources.Lifecycle.{ResolvedRestore}
use tamoss.Hibernate.Prefix.{driver_cnpg_physical}
use tamoss.Resume.{resolved}
use tamoss.Resume.Manifest.{validate_resume_manifest, server_name}
use tamoss.Resume.Resolve.{Location, restore_of_read, validated, restore_from_manifest}

-- A manifest that an instance of a release may resume from under a key.
pub record IsResumable (m : Manifest) (key : String) (target : Target) : Type 0 where
  pub kind : m.schema.manifest_kind ≡ "TamossHibernate"
  pub versioned : trim_space m.schema.version ≢ ""
  pub supported : supports target (trim_space m.schema.version) ≡ true
  pub same_api : trim_space m.schema.tams_api ≡ target.tams_api
  pub driven : m.driver ≡ driver_cnpg_physical
  pub keyed : (m.artifact.manifest_key ≡ "") ⊎ (m.artifact.manifest_key ≡ key)
  pub placed : m.cnpg.destination_path ≢ ""
  pub identified : m.cnpg.backup_id ≢ ""
  pub complete : m.cnpg.phase ≡ "completed"
  pub served : server_name m ≢ ""

module _ (m : Manifest) (key : String) (target : Target) where
  abbrev version : String
  version = trim_space m.schema.version

  validate_sound : validate_resume_manifest m key target ≡ ok tt → IsResumable m key target
  unfolding validate_resume_manifest
  validate_sound h = ground (
    arith,
    eq_iff m.schema.manifest_kind "TamossHibernate",
    eq_iff (trim_space m.schema.version) "",
    eq_iff (trim_space m.schema.tams_api) target.tams_api,
    eq_iff m.driver driver_cnpg_physical,
    eq_iff m.artifact.manifest_key "",
    eq_iff m.artifact.manifest_key key,
    eq_iff m.cnpg.destination_path "",
    eq_iff m.cnpg.backup_id "",
    eq_iff m.cnpg.phase "completed",
    eq_iff (server_name m) "",
  )

  validate_complete : IsResumable m key target → validate_resume_manifest m key target ≡ ok tt
  unfolding validate_resume_manifest
  validate_complete s = ground (
    arith,
    eq_iff m.schema.manifest_kind "TamossHibernate",
    eq_iff (trim_space m.schema.version) "",
    eq_iff (trim_space m.schema.tams_api) target.tams_api,
    eq_iff m.driver driver_cnpg_physical,
    eq_iff m.artifact.manifest_key "",
    eq_iff m.artifact.manifest_key key,
    eq_iff m.cnpg.destination_path "",
    eq_iff m.cnpg.backup_id "",
    eq_iff m.cnpg.phase "completed",
    eq_iff (server_name m) "",
  )

  -- `validateResumeManifest` accepts a manifest for a key and a release exactly if it is a
  -- TamossHibernate manifest of the physical driver, of a schema that the release supports and of
  -- the release's TAMS API, that names no other key, and that has a destination path, a backup
  -- identifier, a completed backup and a server name.
  pub validate_resume_manifest_iff :
      (validate_resume_manifest m key target ≡ ok tt) ↔ IsResumable m key target
  validate_resume_manifest_iff = (validate_sound, validate_complete)

-- What a restore says about the manifest that the artifact's location was read as.
pub record IsTrusted (cfg : Config) (t : Tamoss) (spec : StorageBackendSpec) (l : Location)
    (read : Result (Manifest × String)) (r : ResolvedRestore) : Type 0 where
  pub manifest : Manifest
  pub answered : read ≡ ok (manifest, l.trusted_checksum)
  pub trusted : r.checksum ≡ l.trusted_checksum
  pub present : l.trusted_checksum ≢ ""
  pub resumable : IsResumable manifest l.manifest_key (schema_of cfg t.spec.version)
  pub from_source : r.restore.source ≡ server_name manifest
  pub from_path : r.restore.object_store.destination_path ≡ manifest.cnpg.destination_path
  pub from_bucket : r.restore.object_store.bucket ≡ spec.bucket_name
  pub keyed : r.retention.manifest_key ≡ l.manifest_key
  pub unresumed : r.retention.resumed_at ≡ none
  pub unpinned : r.restore.backup_id ≡ ""

module _ (cfg : Config) (t : Tamoss) (spec : StorageBackendSpec) (backend : String)
    (l : Location) where
  validated_lem :
      (m : Manifest) (checksum : String) (r : ResolvedRestore) (v : Result (Unit {0}))
      → validated cfg t spec backend l m checksum v ≡ resolved r
      → (v ≡ ok tt) × (restore_from_manifest spec backend l.manifest_key checksum m ≡ r)
  unfolding validated
  validated_lem m checksum r (ok u) h = ground arith
  validated_lem m checksum r (err e) h = ground arith

  restore_of_read_lem :
      (m : Manifest) (checksum : String) (r : ResolvedRestore)
      → restore_of_read cfg t spec backend l (ok (m, checksum)) ≡ resolved r
      → (checksum ≢ "")
        × (l.trusted_checksum ≡ checksum)
        × (validated cfg t spec backend l m checksum
              (validate_resume_manifest m l.manifest_key (schema_of cfg t.spec.version))
            ≡ resolved r)
  unfolding restore_of_read
  restore_of_read_lem m checksum r h =
      ground (arith, eq_iff checksum "", eq_iff l.trusted_checksum checksum)

  -- If the read of an artifact's location is resolved into a restore, then it answered a manifest
  -- with the very checksum that the location trusts, which is not empty; the manifest passes the
  -- checks for the instance's release; and the restore is from the manifest's server and path in
  -- the backend's bucket, under the location's key, not yet resumed, and not pinned to a
  -- backup: its backup identifier is empty.
  pub restore_of_read-IsTrusted :
      (read : Result (Manifest × String)) (r : ResolvedRestore)
      → restore_of_read cfg t spec backend l read ≡ resolved r
      → IsTrusted cfg t spec l read r
  unfolding restore_from_manifest restore_of_read
  restore_of_read-IsTrusted (err e) r h = ground arith
  restore_of_read-IsTrusted (ok (m, checksum)) r h =
      let (present, same, rest) = restore_of_read_lem m checksum r h in
      let (valid, made) = validated_lem m checksum r _ rest in
      record {
        manifest = m;
        answered = cc;
        trusted = cc;
        present = λ e. present (sym same ∙ e);
        resumable = validate_sound m l.manifest_key (schema_of cfg t.spec.version) valid;
        from_source = cc;
        from_path = cc;
        from_bucket = cc;
        keyed = cc;
        unresumed = cc;
        unpinned = cc;
      }
