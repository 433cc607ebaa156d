-- ===== src/Examples/Lifecycle.antt =====
-- The status of the example's operation, in a cluster whose conditions are kept in a list.
use tamoss.Base.{String, eq_iff, ◌≡◌, ◌≢◌, refl, true, false, some, List, arith}
use tamoss.Kube.{Condition, literal}
use tamoss.Resources.Lifecycle.{OperationPhase, OperationStatus}
use tamoss.Base.{none}
use tamoss.Kube.{conflict}
use tamoss.Effect.{err}
use tamoss.Resources.Lifecycle.{LifecycleStatus, LifecyclePhase}
use tamoss.Lifecycle.{set_lifecycle_operation_state}
use tamoss.Cluster.{Api, ConditionLaws}
use tamoss.Lifecycle.Operation.{set_operation_status}
use tamoss.Lifecycle.Rounds
use tamoss.Lifecycle.Conditions.{
  Shows, Stamps, set_operation_status-Shows, set_operation_status-history,
}
use tamoss.Hibernate.Source.{no_artifact}
use tamoss.Examples.Cluster.{api, first_of, put_condition, status_in}

first_self : (c : Condition) (cs : List Condition) → first_of c.type (put_condition cs c) ≡ some c
first_self c cs = ground (arith, eq_iff c.type c.type)

first_ne :
    (cs : List Condition) (c : Condition) (t : String)
    → t ≢ c.type
    → first_of t (put_condition cs c) ≡ first_of t cs
first_ne cs c t ne = ground (arith, eq_iff c.type t, ne)

laws : ConditionLaws api
laws = record {
  find-set_self = λ cs c. (c, first_self c cs, refl, refl, refl, refl);
  find-set_ne = first_ne;
}

abbrev failed_status : OperationStatus
failed_status =
    set_operation_status api 5000 1 OperationPhase.failed "BackupPolicyFailed" (literal "no space")
      no_artifact (status_in OperationPhase.capturing_database)

set_operation_status-Shows_example :
    Shows api failed_status.conditions "Ready" false "BackupPolicyFailed" (literal "no space") 1
    × Shows api failed_status.conditions "Progressing" false "BackupPolicyFailed"
        (literal "no space")
        1
    × Shows api failed_status.conditions "Degraded" true "BackupPolicyFailed" (literal "no space") 1
set_operation_status-Shows_example =
    set_operation_status-Shows api laws 5000 1 OperationPhase.failed "BackupPolicyFailed"
      (literal "no space") no_artifact (status_in OperationPhase.capturing_database)

set_operation_status-history_example :
    Stamps
      (status_in OperationPhase.capturing_database)
      failed_status
      5000
      OperationPhase.failed
      no_artifact
set_operation_status-history_example =
    set_operation_status-history api laws 5000 1 OperationPhase.failed "BackupPolicyFailed"
      (literal "no space") no_artifact (status_in OperationPhase.capturing_database)

-- A cluster in which every patch of an instance meets a conflict.
abbrev contended : Api
contended = record api { patched_tamoss = λ log t. err conflict }

abbrev claim : LifecycleStatus → LifecycleStatus
claim =
    set_lifecycle_operation_state LifecyclePhase.hibernating "TamossHibernating" (literal "claimed")
      none
