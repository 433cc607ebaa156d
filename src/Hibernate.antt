-- ===== src/Hibernate.antt =====
-- operator/internal/controller/tamosshibernate_controller.go: the hibernation of an instance.
pub mod Prefix
pub mod Source
pub mod Workloads
pub mod Capture
pub mod Retry
pub mod Finalize
pub mod Reconcile
pub mod Discipline
pub mod StatusDiscipline
pub mod Safety
pub mod Commit
pub mod GuardedEnds
pub mod Guarded
pub mod Guarantees
pub mod SafePrefix
