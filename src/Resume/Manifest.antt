-- ===== src/Resume/Manifest.antt =====
-- The checks of a manifest that an instance resumes from (tamoss_resume_bootstrap.go), and the
-- errors of its read that are final (tamoss_hibernation_manifest.go).
use tamoss.Base.{String, ◌==◌, Bool, false, not, ◌&&◌, ◌||◌, [], ◌∷◌, if◌then◌else◌}
use tamoss.Base.Text.{trim_space}
use tamoss.Kube.{Error, errorf, wrapf, sentinel, response, cause}
use tamoss.Effect.{Result, ok, err}
use tamoss.Releases.{Target, supports}
use tamoss.Resources.Manifest.{Manifest}
use tamoss.Hibernate.Prefix.{driver_cnpg_physical}

-- `errHibernationManifestSchemaUnsupported`, `errHibernationManifestChecksumMismatch` and
-- `errHibernationManifestInvalid`.
abbrev pub schema_unsupported : String
schema_unsupported = "hibernation manifest schema is unsupported"

abbrev pub checksum_mismatch : String
checksum_mismatch = "hibernation manifest checksum mismatch"

abbrev pub manifest_invalid : String
manifest_invalid = "hibernation manifest invalid"

-- `errors.Is(err, ...)` of a package variable.
unfoldable pub is_sentinel : String → Error → Bool
is_sentinel s (sentinel t) = t == s
is_sentinel s e = false

-- `isPermanentHibernationManifestReadError` of the error at the end of the chain.
unfoldable pub is_permanent_cause : Error → Bool
is_permanent_cause (sentinel s) = s == checksum_mismatch || s == manifest_invalid
is_permanent_cause (response code) = code == "NoSuchKey" || code == "NoSuchBucket"
is_permanent_cause e = false

unfoldable pub is_permanent_read_error : Error → Bool
unfolding is_permanent_cause
is_permanent_read_error e = is_permanent_cause (cause e)

-- `resumeManifestReadFailureReason`.
unfoldable pub read_failure_reason : Error → String
unfolding is_sentinel
read_failure_reason e =
    if is_sentinel checksum_mismatch (cause e)
    then "HibernateManifestChecksumMismatch"
    else "HibernateSourceInvalid"

-- `resumeCNPGServerName`.
unfoldable pub server_name : Manifest → String
server_name m = if m.cnpg.server_name == "" then m.database.cluster else m.cnpg.server_name

-- `validateResumeManifest`.
unfoldable pub validate_resume_manifest : Manifest → String → Target → Result (Unit {0})
unfolding server_name
validate_resume_manifest m manifest_key target =
    let version = trim_space m.schema.version in
    let tams_api = trim_space m.schema.tams_api in
    if not (m.schema.manifest_kind == "TamossHibernate")
    then err (
        errorf "hibernation manifest schema kind %q is not supported" (m.schema.manifest_kind ∷ []))
    else if version == ""
    then err (wrapf "%w: schema.version is required" [] (sentinel schema_unsupported))
    else if not (supports target version)
    then err (
        wrapf "%w: schema version %q is not supported by this operator" (version ∷ [])
          (sentinel schema_unsupported))
    else if not (tams_api == target.tams_api)
    then err (
        wrapf "%w: TAMS API version %q is not supported; expected %q"
          (tams_api ∷ target.tams_api ∷ []) (sentinel schema_unsupported))
    else if not (m.driver == driver_cnpg_physical)
    then err (errorf "hibernation manifest driver %q is not supported for resume" (m.driver ∷ []))
    else if not (m.artifact.manifest_key == "") && not (m.artifact.manifest_key == manifest_key)
    then err (
        errorf "hibernation manifest key %q does not match requested key %q"
          (m.artifact.manifest_key ∷ manifest_key ∷ []))
    else if m.cnpg.destination_path == ""
    then err (errorf "hibernation manifest is missing cnpg.destinationPath" [])
    else if m.cnpg.backup_id == ""
    then err (errorf "hibernation manifest is missing cnpg.backupID" [])
    else if not (m.cnpg.phase == "completed")
    then err
        (errorf "hibernation manifest CNPG backup phase %q is not completed" (m.cnpg.phase ∷ []))
    else if server_name m == ""
    then err (errorf "hibernation manifest is missing CNPG source server name" [])
    else ok tt
