-- ===== src/Ingest.antt =====
-- operator/internal/controller/ingestrun_controller.go and ingest_stream.go: the runs that ingest
-- media into an instance, each by one TAMSin Job.
pub mod Run
pub mod Names
pub mod Output
pub mod Inputs
pub mod Sources
pub mod Stream
pub mod Job
pub mod Desired
pub mod Phase
pub mod Api
pub mod Status
pub mod Gates
pub mod Pods
pub mod Track
pub mod Admit
pub mod Reconcile
pub mod Evidence
pub mod Discipline
pub mod Guarded
pub mod GatesGuarded
pub mod AdmitGuarded
pub mod Safety
pub mod Ending
pub mod History
pub mod Plans
pub mod LastPod
pub mod StreamLaws
pub mod Retries
