-- ===== src/Hibernate/SafePrefix.antt =====
-- What a cleanup may delete: the objects below the folder of a manifest.
use Prim.Native.String.{◌++◌}
use text.Mathlib.TextLemmas.{nil-append, cons-append}
use tamoss.Base.{
  ◌∙◌, String, ◌==◌, eq_iff, ◌≡◌, ◌≢◌, refl, sym, ap, Bool, ◌||◌, if◌then◌else◌, true, false, any,
  arith,
}
use tamoss.Base.Text.{trim_space, clean, split, has_suffix, trim_suffix}
use tamoss.Effect.{ok}
use tamoss.Hibernate.Prefix.{unsafe_segment, root_prefix_of_key, hibernation_artifact_root_prefix}

-- A suffix that a text has is what follows the text without it.
pub trim_suffix-has_suffix : (s p : String) → has_suffix s p ≡ true → trim_suffix s p ++ p ≡ s
unfolding has_suffix trim_suffix
trim_suffix-has_suffix String.[] p h = nil-append p ∙ sym ((eq_iff "" p).0 h)
trim_suffix-has_suffix (String.◌∷◌ c s) p h =
    whole_or_rest (trim_suffix-has_suffix s p) (String.◌∷◌ c s == p) refl h
  where
    whole_or_rest :
        (has_suffix s p ≡ true → trim_suffix s p ++ p ≡ s)
        → (b : Bool) → (String.◌∷◌ c s == p) ≡ b
        → (b || has_suffix s p) ≡ true
        → (if b then "" else String.◌∷◌ c (trim_suffix s p)) ++ p ≡ String.◌∷◌ c s
    whole_or_rest rest true e k = nil-append p ∙ sym ((eq_iff (String.◌∷◌ c s) p).0 e)
    whole_or_rest rest false e k = cons-append c (trim_suffix s p) p ∙ ap (String.◌∷◌ c) (rest k)

pub record IsArtifactPrefix (manifest_key prefix : String) : Type 0 where
  pub root : String
  pub folder : prefix ≡ root ++ "/"
  pub manifest : root ++ "/manifest.json" ≡ trim_space manifest_key
  pub inhabited : root ≢ ""
  pub safe : any unsafe_segment (split root) ≡ false
  pub normal : clean (trim_space manifest_key) ≡ trim_space manifest_key

root_prefix_lem :
    (manifest_key key prefix : String)
    → root_prefix_of_key manifest_key key ≡ ok prefix
    → (prefix ≡ trim_suffix key "/manifest.json" ++ "/")
      × (has_suffix key "/manifest.json" ≡ true)
      × (trim_suffix key "/manifest.json" ≢ "")
      × (any unsafe_segment (split (trim_suffix key "/manifest.json")) ≡ false)
      × (clean key ≡ key)
unfolding root_prefix_of_key
root_prefix_lem manifest_key key prefix h =
    ground (arith, eq_iff (trim_suffix key "/manifest.json") "", eq_iff (clean key) key)

-- A prefix that `hibernationArtifactRootPrefix` gives for a manifest key is a folder with a slash
-- behind it: the manifest's key, without the white space around it, is the manifest.json in that folder, the folder has a
-- name, no segment of it is empty, `.` or `..`, and the key is a clean path.
pub hibernation_artifact_root_prefix-IsArtifactPrefix :
    (manifest_key prefix : String)
    → hibernation_artifact_root_prefix manifest_key ≡ ok prefix
    → IsArtifactPrefix manifest_key prefix
unfolding hibernation_artifact_root_prefix
hibernation_artifact_root_prefix-IsArtifactPrefix manifest_key prefix h =
    let (folder, suffix, inhabited, safe, normal) =
      root_prefix_lem manifest_key (trim_space manifest_key) prefix h in
    record {
      root = trim_suffix (trim_space manifest_key) "/manifest.json";
      folder = folder;
      manifest = trim_suffix-has_suffix (trim_space manifest_key) "/manifest.json" suffix;
      inhabited = inhabited;
      safe = safe;
      normal = normal;
    }
