-- ===== src/Hibernate/StatusDiscipline.antt =====
-- The status writes of a hibernation keep to the discipline.
use tamoss.Base.{◌≡◌, subst, sym, String, List}
use tamoss.Base.{arith}
use tamoss.Kube.{Message, Time}
use tamoss.Effect.Preserves.{Preserves-Every, preserves_rules}
use tamoss.Resources.{TamossHibernate, Tamoss}
use tamoss.Resources.Lifecycle.{Artifact, OperationPhase, LifecycleStatus}
use tamoss.Cluster.{Api, Call}
use tamoss.Lifecycle.{patch_lifecycle, with_lifecycle, stamp_transition}
use tamoss.Lifecycle.Preserved.{Preserves-patch_lifecycle}
use tamoss.Cluster.{patch_tamoss_status}
use tamoss.Lifecycle.Operation.{
  update_hibernate_status, with_operation_status, set_operation_status,
}
use tamoss.Hibernate.Source.{halt_with}
use tamoss.Hibernate.Discipline.{MayCall, MayReport, MayEnter, Keeps, Keeps-record_operation_events}

stamp_transition-phase :
    (now : Time) (old new : LifecycleStatus) → (stamp_transition now old new).phase ≡ new.phase
unfolding stamp_transition
stamp_transition-phase now old new = ground arith

module _ (api : Api) (h : TamossHibernate) where
  pub Keeps-update :
      (u : TamossHibernate) (p : OperationPhase) (reason : String) (m : Message) (a : Artifact)
      → ((b : Artifact) (log : List Call) → MayReport api h p b log)
      → Keeps api h (update_hibernate_status api u p reason m a)
  unfolding MayCall update_hibernate_status with_operation_status set_operation_status
  Keeps-update u p reason m a free =
      search (preserves_rules, Preserves-Every (MayCall api h), Keeps-record_operation_events, free)
        depth 20

  pub Keeps-halt_with :
      {A : Type 0}
      → (u : TamossHibernate) (p : OperationPhase) (reason : String) (m : Message) (a : Artifact)
      → ((b : Artifact) (log : List Call) → MayReport api h p b log)
      → Keeps api h (halt_with api {A = A} u p reason m a)
  unfolding halt_with
  Keeps-halt_with u p reason m a free = search (preserves_rules, Keeps-update, free)

  entered :
      (mutate : LifecycleStatus → LifecycleStatus)
      → ((l : LifecycleStatus) → MayEnter api h (mutate l).phase)
      → (now : Time) (t : Tamoss) (log : List Call)
      → MayCall api h (patch_tamoss_status (with_lifecycle now mutate t)) log
  unfolding MayCall with_lifecycle
  entered mutate free now t log =
      subst (MayEnter api h)
        (sym (stamp_transition-phase now t.status.lifecycle (mutate t.status.lifecycle)))
        (free t.status.lifecycle)

  pub Keeps-patch_lifecycle :
      (mutate : LifecycleStatus → LifecycleStatus) (t : Tamoss)
      → ((l : LifecycleStatus) → MayEnter api h (mutate l).phase)
      → Keeps api h (patch_lifecycle api mutate t)
  unfolding MayCall
  Keeps-patch_lifecycle mutate t free =
      Preserves-patch_lifecycle api (MayCall api h) (λ _ _ _. tt) mutate (entered mutate free) t
