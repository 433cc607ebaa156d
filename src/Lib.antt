-- ===== src/Lib.antt =====
-- The TAMOSS operator: hibernation, resume, releases, ingest runs and guards.
--
-- The operator (operator/, in Go) keeps TAMOSS instances on a Kubernetes cluster. This library models
-- the part of it that can lose data: the hibernation of an instance, which captures the database
-- into an object store and removes it; the resume, which restores an instance from such an
-- artifact; the retention, which deletes artifacts that were consumed; and the catalogue of
-- releases, which says where an instance may move. It also models the ingest runs, which start a
-- Job of TAMSin's on an instance and report what the log of its Pod says; the webhook, which
-- refuses deletions and changes of a spec; and the deduplication of warning events.
--
-- Code is a function from the log of the calls made so far to a result and a longer log (Effect). An
-- answer is a function of the log: every reading of the API server, the object store and the clock
-- is the environment's choice, so that a theorem about a run holds for every interleaving with other
-- writers. The environment is the record `Api` (Cluster), with the functions of apimachinery and
-- controller-runtime that the code calls; `ConditionLaws` is what apimachinery documents of its
-- condition helpers. Where the client overwrites an object with the answer to a patch and the code
-- depends on it, so does the model. `Effect.Preserves` has the rules for invariants of the log.
--
-- Files:
--   Base: Boolean tests, lists, sorting, maps, texts and their bytes, path.Clean and path.Join,
--     int32. Effect: calls, with Preserves on invariants of the log and Yields on results.
--   Kube: metadata, conditions, errors, messages. Resources: operator/api/v1alpha1.
--   Releases: operator/internal/releases/catalogue.go and operator/internal/schema (Load, Select,
--     Supports, ValidateVersion). Config: operator/internal/controller/releases.go
--     (resolveTamoss) and what a reconciler is built with.
--   Lifecycle: tamoss_lifecycle_operations.go (patchTamossLifecycleStatus); Lifecycle.Operation:
--     tamoss_operation_status.go (setOperationStatus, updateHibernateStatus); Rounds and Conditions
--     prove what they write.
--   Hibernate: tamosshibernate_controller.go. Source finds what an operation works on, Workloads
--     changes it, Capture takes the backup and writes the manifest, Retry and Finalize are the
--     retry and the deletion, Reconcile puts them together; Prefix has the object keys. Discipline,
--     StatusDiscipline, Safety, Commit and Guarded prove what a reconcile may call, and Guarantees
--     says it.
--   Driver: tamoss_hibernation_driver.go, with Driver.Guarded on its calls. Resume:
--     tamoss_resume_bootstrap.go, with the errors of tamoss_hibernation_manifest.go; Trust and
--     Pending prove what a restore rests on and leaves. Cleanup and Retention: tamoss_hibernation_cleanup.go,
--     with Retention.Guarded on its calls.
--   Ingest: ingestrun_controller.go, ingest_stream.go and operator/api/v1alpha1/ingestrun_types.go and
--     ingestrun_output.go. Run has the resource, Names the names of Jobs, Output the output intent,
--     Inputs the limits on resolved inputs and endpoints, Job the reads of a Job's end, Stream the
--     decoding of a log, Desired the Job's object, Phase the phases, Api the calls, Status the status
--     patches, Gates what a run waits for, Pods the choice of the Pod and its log, Track a run with a
--     Job, Admit one without, Reconcile all of it. Evidence, Discipline, Guarded, GatesGuarded, AdmitGuarded and
--     Safety prove what a reconcile may call; Ending, History, Plans, LastPod, StreamLaws and Retries
--     are about the operations their names say.
--     Ingest.Sources is ingest_resolvers.go (SourcePolicyResolver): Selectors checks locations and
--     hosts, Resolve puts it together, Approval and Policy prove what is let through.
--   Warnings: operator/internal/status/events.go (ShouldRecord, EmitWarningEvent). DeleteProtection:
--     operator/internal/webhook/deleteprotection/deleteprotection.go, with Decision on what it allows.
--   Examples: a concrete cluster, and each theorem at one of its states.
--   The files named without a folder are in operator/internal/controller.
--
-- A Go function that calls the API server several times is several definitions here, one for what
-- follows each answer; a definition's comment names its function. A Go pointer that a function
-- changes is a result. `Stage` (Hibernate.Source) is a value or the early return of a reconcile.
--
-- Bounds: the only loop that is not over a list is retry.RetryOnConflict; its rounds are
-- `api.retries`, which is any number, and the last round's answer stands, as in Go. Times are in seconds;
-- a TTL that is not positive is zero. The duration of a TTL keeps its wrap-around at 64 bits (Retention);
-- other times are not bounded, so the overflow of time.Duration beyond 292 years is left out of
-- them. The counters of cycles and attempts keep the range of int32. A stream has the source's
-- limits, 2 MiB for a line and 64 MiB in all, the latter tested on the whole length, and a finished
-- Job is watched for 900 seconds. Texts are sequences of characters with the length of their UTF-8
-- encoding; a cut at a number of bytes keeps whole characters, which is Go's cut for the ASCII names
-- of Kubernetes.
--
-- Not modelled: the S3 client with the JSON and the SHA-256 of a manifest (parameters `upload`,
-- `download`, `delete_objects`), the defaults of an installation (parameters of `Config`),
-- metrics and logging, the schema migration, the rendering of workloads, the provider backends and the
-- web services. In Lifecycle, whether a warning is due (`is_due`) is the environment's choice. The
-- ingest runs take the resolvers of inputs and endpoint as parameters, with the reducer of TAMSin's
-- events, the JSON, URL and SHA-256 functions and the log reader; of the resolvers, that of inputs is
-- modelled by itself (Ingest.Sources), and that of the endpoint is not.
pub mod Base
pub mod Kube
pub mod Resources
pub mod Effect
pub mod Cluster
pub mod Releases
pub mod Lifecycle
pub mod Config
pub mod Hibernate
pub mod Driver
pub mod Resume
pub mod Cleanup
pub mod Retention
pub mod Examples
pub mod Ingest
pub mod Warnings
pub mod DeleteProtection
