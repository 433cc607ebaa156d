-- ===== src/Resources/Storage.antt =====
-- operator/api/v1alpha1/storagebackend_types.go: the object store that holds hibernation artifacts.
use tamoss.Base.{ℕ, String, ◌==◌, if◌then◌else◌}
use tamoss.Base.{not, ◌&&◌, List, [], ◌∷◌}
use tamoss.Base.{Bool}
use tamoss.Base.Text.{concat}
use tamoss.Kube.{ObjectMeta, Condition}

pub data RetentionMode : Type 0 where
  unset retain delete_after_resume ttl : RetentionMode
  unsupported : String → RetentionMode

pub record StorageBackendSpec : Type 0 where
  pub id : String
  pub provider : String
  pub usage : String
  pub label : String
  pub region : String
  pub store_product : String
  pub store_type : String
  pub bucket_name : String
  pub endpoint_url : String
  pub public_endpoint_url : String
  pub existing_secret : String
  pub access_key_key : String
  pub secret_key_key : String
  pub retention_mode : RetentionMode
  -- Zero stands for every value that is not positive.
  pub ttl_seconds_after_resume : ℕ

pub record StorageBackend : Type 0 where
  pub metadata : ObjectMeta
  pub spec : StorageBackendSpec
  pub phase : String
  -- `spec.tamossRef.name`, and of the status what the ingest runs read.
  pub tamoss_ref : String
  pub observed_generation : ℕ
  pub conditions : List Condition
  pub resolved_backend_id : String
  pub backend_id : String

abbrev pub provider_rustfs : String
provider_rustfs = "rustfs"

abbrev pub provider_external_s3 : String
provider_external_s3 = "external-s3"

abbrev pub usage_media : String
usage_media = "media"

abbrev pub usage_hibernate : String
usage_hibernate = "hibernate"

-- `if s == "" { s = fallback }`.
abbrev pub or_default : String → String → String
or_default s fallback = if s == "" then fallback else s

abbrev pub default_retention : RetentionMode → RetentionMode
default_retention unset = retain
default_retention m = m

-- `ApplyDefaults`, with `deterministic_id` for `DeterministicStorageBackendID`, a SHA-256 of the
-- namespace and the name.
unfoldable pub apply_defaults :
    (String → String → String) → String → String → StorageBackendSpec → StorageBackendSpec
apply_defaults deterministic_id namespace name s =
    let region = or_default s.region "us-east-1" in
    record s {
      provider = or_default s.provider provider_rustfs;
      usage = or_default s.usage usage_media;
      region = region;
      store_product = or_default s.store_product "s3";
      store_type = or_default s.store_type "http_object_store";
      public_endpoint_url = or_default s.public_endpoint_url s.endpoint_url;
      label =
          if s.label == "" && not (s.bucket_name == "")
          then concat ("tamoss." ∷ region ∷ ":s3:" ∷ s.bucket_name ∷ [])
          else s.label;
      id = or_default s.id (deterministic_id namespace name);
      retention_mode = default_retention s.retention_mode;
    }

unfoldable pub is_external_object_store : StorageBackendSpec → Bool
is_external_object_store s = s.provider == provider_external_s3

unfoldable pub is_hibernate_destination : StorageBackendSpec → Bool
is_hibernate_destination s = s.usage == usage_hibernate
