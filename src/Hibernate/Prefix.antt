-- ===== src/Hibernate/Prefix.antt =====
-- The object keys of an artifact: the driver, the manifest key and the check of the destination
-- prefix (tamosshibernate_controller.go), and the prefix that a cleanup deletes
-- (tamoss_hibernation_cleanup.go).
use mathlib.Core.Bool.{not}
use tamoss.Base.{String, ◌==◌, Bool, ◌||◌, [], ◌∷◌, any, if◌then◌else◌}
use tamoss.Base.Text.{
  concat, trim_space, has_prefix, has_suffix, trim_suffix, split, clean, path_join,
}
use tamoss.Kube.{errorf}
use tamoss.Effect.{Result, ok, err}
use tamoss.Resources.{TamossHibernate}

abbrev pub driver_cnpg_physical : String
driver_cnpg_physical = "cnpgPhysical"

-- `hibernateDriver`.
unfoldable pub hibernate_driver : TamossHibernate → String
hibernate_driver h = if h.spec.driver == "" then driver_cnpg_physical else h.spec.driver

-- `hibernateDestinationPrefix`.
unfoldable pub hibernate_destination_prefix : TamossHibernate → String
hibernate_destination_prefix h =
    if h.spec.destination.prefix == ""
    then concat ("hibernations/" ∷ h.spec.tamoss_ref ∷ [])
    else h.spec.destination.prefix

-- `hibernateManifestKey`.
unfoldable pub hibernate_manifest_key : TamossHibernate → String
unfolding hibernate_destination_prefix
hibernate_manifest_key h =
    path_join (hibernate_destination_prefix h ∷ h.metadata.name ∷ "manifest.json" ∷ [])

-- `segment == "" || segment == "." || segment == ".."`.
unfoldable pub unsafe_segment : String → Bool
unsafe_segment s = s == "" || s == "." || s == ".."

-- `validateHibernationDestinationPrefix`.
unfoldable pub validate_hibernation_destination_prefix : String → Result (Unit {0})
unfolding unsafe_segment
validate_hibernation_destination_prefix prefix =
    if not (trim_space prefix == prefix)
    then err (errorf "spec.destination.prefix must not have leading or trailing whitespace" [])
    else if prefix == ""
    then ok tt
    else if has_prefix prefix "/" || has_suffix prefix "/" || not (clean prefix == prefix)
    then err (
        errorf "spec.destination.prefix %q must be a normalized relative object-key prefix"
          (prefix ∷ []))
    else if any unsafe_segment (split prefix)
    then err (errorf "spec.destination.prefix %q contains an unsafe path segment" (prefix ∷ []))
    else ok tt

-- `hibernationArtifactRootPrefix` on the trimmed key.
unfoldable pub root_prefix_of_key : String → String → Result String
unfolding unsafe_segment
root_prefix_of_key manifest_key key =
    let root = trim_suffix key "/manifest.json" in
    if key == ""
    then err (errorf "resume artifact cleanup requires a manifest key" [])
    else if has_prefix key "/"
    then err (errorf "resume artifact manifest key %q must be relative" (manifest_key ∷ []))
    else if not (clean key == key)
    then err (errorf "resume artifact manifest key %q must be normalized" (manifest_key ∷ []))
    else if not (has_suffix key "/manifest.json")
    then err
        (errorf "resume artifact manifest key %q must end with /manifest.json" (manifest_key ∷ []))
    else if root == "" || root == "." || root == "/"
    then err (
        errorf "resume artifact manifest key %q does not identify an artifact prefix"
          (manifest_key ∷ []))
    else if any unsafe_segment (split root)
    then err (
        errorf "resume artifact manifest key %q contains an unsafe path segment"
          (manifest_key ∷ []))
    else ok (concat (root ∷ "/" ∷ []))

-- `hibernationArtifactRootPrefix`.
unfoldable pub hibernation_artifact_root_prefix : String → Result String
unfolding root_prefix_of_key
hibernation_artifact_root_prefix manifest_key =
    root_prefix_of_key manifest_key (trim_space manifest_key)
