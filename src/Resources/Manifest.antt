-- ===== src/Resources/Manifest.antt =====
-- The manifest that describes a hibernation artifact
-- (operator/internal/controller/tamoss_hibernation_manifest.go).
use tamoss.Base.{String}

pub record ManifestTamoss : Type 0 where
  pub name : String
  pub namespace : String
  pub uid : String

pub record ManifestSchema : Type 0 where
  pub version : String
  pub tams_api : String
  pub operator : String
  pub manifest_kind : String

pub record ManifestDatabase : Type 0 where
  pub provider : String
  pub cluster : String

pub record ManifestArtifact : Type 0 where
  pub manifest_key : String
  pub manifest_uri : String

pub record ManifestCnpg : Type 0 where
  pub backup_name : String
  pub backup_id : String
  pub destination_path : String
  pub server_name : String
  pub phase : String

pub record ManifestStorageBackend : Type 0 where
  pub name : String
  pub bucket : String
  pub endpoint_url : String
  pub region : String

pub record Manifest : Type 0 where
  pub manifest_version : String
  pub created_at : String
  pub driver : String
  pub source_tamoss : ManifestTamoss
  pub schema : ManifestSchema
  pub database : ManifestDatabase
  pub artifact : ManifestArtifact
  pub cnpg : ManifestCnpg
  pub storage_backend : ManifestStorageBackend
