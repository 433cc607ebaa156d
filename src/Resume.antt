-- ===== src/Resume.antt =====
-- operator/internal/controller/tamoss_resume_bootstrap.go: the database of an instance, restored
-- from the artifact of a hibernation.
pub mod Manifest
pub mod Resolve
pub mod Bootstrap
pub mod Trust
pub mod Pending
use tamoss.Base.{String}
use tamoss.Kube.{Message}
use tamoss.Effect.{Action, return}
use tamoss.Cluster.{Call}

-- `resumeBootstrapOutcome`: exactly one of the three is set. A failure and a wait have a reason.
pub data Outcome (A : Type 0) : Type 0 where
  resolved : A → Outcome A
  waiting failure : String → Message → Outcome A

-- The `return` at the first outcome that is not resolved.
abbrev pub and_then :
    {A B : Type 0} → Outcome A → (A → Action Call (Outcome B)) → Action Call (Outcome B)
and_then (resolved a) k = k a
and_then (waiting reason message) k = return (waiting reason message)
and_then (failure reason message) k = return (failure reason message)
