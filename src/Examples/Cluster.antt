-- ===== src/Examples/Cluster.antt =====
-- A cluster that holds one instance, one hibernation destination and one completed backup, and in
-- which every write succeeds.
use tamoss.Base.{ℕ, String, ◌==◌, Bool, true, false, Option, none, some, List, [], ◌∷◌}
use tamoss.Kube.{not_found, Message, ObjectMeta, Condition, condition_true}
use tamoss.Effect.{Result, ok, err}
use tamoss.Releases.{Target, Images, Release, Catalogue}
use tamoss.Config.{Config}
use tamoss.Resources.{Tamoss, TamossHibernate, Cluster, Backup, backup_completed}
use tamoss.Resources.Storage.{StorageBackend, RetentionMode}
use tamoss.Resources.Lifecycle.{LifecyclePhase, OperationPhase, LifecycleStatus, OperationStatus}
use tamoss.Cluster.{Api}
use tamoss.Hibernate.Source.{no_artifact}

abbrev pub named : String → String → ObjectMeta
named name uid = record {
  name = name;
  namespace = "media";
  uid = uid;
  generation = 1;
  labels = [];
  annotations = [];
  finalizers = [];
  owner_references = [];
  deletion_timestamp = none;
}

abbrev pub target : Target
target = record {
  version = "0.4.0";
  previous_version = "0.3.0";
  database_revision = "b2";
  tams_api = "7.0";
}

abbrev pub images : Images
images = record {
  api = "api:1";
  ui = "ui:1";
  console = "console:1";
  postgres_client = "psql:1";
  cnpg_postgres_version = "17";
  rustfs = "rustfs:1";
  tamsin = "tamsin:1";
}

abbrev pub schema_migrated_condition : Condition
schema_migrated_condition = record {
  type = "SchemaMigrated";
  status = condition_true;
  observed_generation = 1;
  last_transition_time = 0;
  reason = "SchemaReady";
  message = Message.empty;
}

abbrev pub running : LifecycleStatus
running = record {
  phase = LifecyclePhase.running;
  reason = "";
  message = Message.empty;
  last_transition_time = none;
  hibernation_cycle = 0;
  active_operation_ref = none;
  last_hibernate_ref = none;
  resolved_restore = none;
  pending_artifact_cleanups = [];
}

abbrev pub instance : Tamoss
instance = record {
  metadata = named "tamoss" "t1";
  spec = record {
    version = "1.0";
    profile = "small";
    paused = false;
    fullname_override = "";
    db = record {
      provided_by = "cnpg";
      has_external = false;
      has_bundled = false;
      has_cnpg = true;
      apply_fixtures = none;
    };
    s3 = record { provided_by = "external"; has_external = true; has_rustfs_operator = false };
    hibernation = record { enabled = false; destination = none; resume_from = none };
    tamsin_image =
        "registry/tamsin@sha256:0123456789abcdef0123456789abcdef0123456789abcdef0123456789abcdef";
    api_token_generate = true;
    api_enabled = none;
    image_pull_secrets = [];
  };
  status = record {
    current_version = "1.0";
    applied_defaults_revision = "";
    observed_generation = 1;
    conditions = schema_migrated_condition ∷ [];
    tams_api = "7.0";
    schema_version = "0.4.0";
    upgrade = record { target_version = ""; phase = ""; reason = ""; message = Message.empty };
    lifecycle = running;
    phase = "Ready";
  };
}

abbrev pub store : StorageBackend
store = record {
  metadata = named "archive" "s1";
  spec = record {
    id = "archive";
    provider = "external-s3";
    usage = "hibernate";
    label = "archive";
    region = "us-east-1";
    store_product = "s3";
    store_type = "http_object_store";
    bucket_name = "hibernate";
    endpoint_url = "https://s3";
    public_endpoint_url = "https://s3";
    existing_secret = "s3";
    access_key_key = "";
    secret_key_key = "";
    retention_mode = RetentionMode.ttl;
    ttl_seconds_after_resume = 3600;
  };
  phase = "Ready";
  tamoss_ref = "tamoss";
  observed_generation = 1;
  conditions = [];
  resolved_backend_id = "archive";
  backend_id = "archive";
}

abbrev pub status_in : OperationPhase → OperationStatus
status_in phase = record {
  observed_generation = 1;
  conditions = [];
  phase = phase;
  reason = "";
  message = Message.empty;
  started_at = none;
  completed_at = none;
  accepted_retry = "";
  artifact = no_artifact;
}

abbrev pub hibernate_in : OperationPhase → TamossHibernate
hibernate_in phase = record {
  metadata = named "nightly" "h1";
  spec = record {
    tamoss_ref = "tamoss";
    destination = record { storage_backend_ref = "archive"; prefix = "" };
    driver = "";
  };
  status = status_in phase;
}

abbrev pub database : Cluster
database = record { metadata = named "tamoss-db" "c1"; backup = none; conditions = [] }

abbrev pub finished_backup : Backup
finished_backup = record {
  metadata = named "nightly" "b1";
  cluster = "tamoss-db";
  status = record {
    phase = backup_completed;
    destination_path = "s3://hibernate/hibernations/tamoss";
    backup_id = "20260101";
    error = "";
    command_error = "";
  };
}

abbrev pub absent : {A : Type 0} → Result A
absent = err not_found

abbrev pub put_condition : List Condition → Condition → List Condition
put_condition cs c = c ∷ cs

abbrev pub first_of : String → List Condition → Option Condition
first_of t [] = none
first_of t (c ∷ cs) =
    let rest = first_of t cs in tamoss.Base.if◌then◌else◌ (c.type == t) (some c) rest

abbrev pub api : Api
api = record {
  hibernate_at = λ log ns n. ok (hibernate_in OperationPhase.completed);
  tamoss_at = λ log ns n. ok instance;
  storage_backend_at = λ log ns n. ok store;
  cluster_at = λ log ns n. ok database;
  backup_at = λ log ns n. ok finished_backup;
  scheduled_backup_at = λ log ns n. absent;
  autoscaler_at = λ log ns n. absent;
  deployment_at = λ log ns n. absent;
  pods_at = λ log ns n. ok [];
  patched_tamoss = λ log t. ok t;
  patched_hibernate = λ log h. ok h;
  patched_cluster = λ log c. ok c;
  created_backup = λ log b. ok b;
  outcome = λ log c. ok tt;
  upload = λ log spec key m. ok "sha256:1";
  download = λ log spec key. absent;
  delete_objects = λ log spec prefix. ok 3;
  now = λ log. 5000;
  format_time = λ t. "2026-01-01T00:00:00Z";
  is_controlled_by = λ obj owner. true;
  set_controller_reference = λ owner obj. ok obj;
  contains_finalizer = λ obj f. true;
  add_finalizer = λ obj f. obj;
  remove_finalizer = λ obj f. obj;
  find_status_condition = λ cs t. first_of t cs;
  set_status_condition = put_condition;
  is_due = λ log n r m. true;
  label_selector = λ s. ok s;
  deterministic_id = λ ns n. "id";
  retries = 4;
}

abbrev pub release : Release
release = record {
  version = "1.0";
  source_commit = "c0ffee";
  upgrade_from = [];
  schema = target;
  images = images;
}

abbrev pub catalogue : Catalogue
catalogue = ("1.0", release) ∷ []

abbrev pub config : Config
config = record {
  watch_namespaces = [];
  poll_interval = 0;
  releases = catalogue;
  defaults_revision = "";
  apply_installation = λ t. ok t;
  apply_release_defaults = λ t i. t;
}
