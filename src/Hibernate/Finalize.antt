-- ===== src/Hibernate/Finalize.antt =====
-- The deletion of a hibernation (tamosshibernate_controller.go): a committed one is finished, any
-- other one fails its lifecycle, and then the finalizer goes.
use mathlib.Core.Bool.{not}
use tamoss.Base.{String, ◌==◌, Bool, true, false, ◌&&◌, Option, none, some, [], ◌∷◌, if◌then◌else◌}
use tamoss.Kube.{errorf, Message, sprintf, ReconcileResult, done, requeue}
use tamoss.Effect.{Action, return, throw, lift, attempt, or_absent, ◌>>=◌, ◌>>◌}
use tamoss.Config.{Config, poll}
use tamoss.Resources.{Tamoss, TamossHibernate}
use tamoss.Resources.Lifecycle.{OperationPhase}
use tamoss.Cluster.{Api, Call, get_tamoss, patch_hibernate, write}
use tamoss.Lifecycle.{operation_ref_matches}
use tamoss.Lifecycle.Operation.{is_completed, is_failed, update_hibernate_status}
use tamoss.Hibernate.Source.{hibernate_kind, hibernate_lifecycle_owned_by}
use tamoss.Hibernate.Workloads.{deprovision_source}
use tamoss.Hibernate.Capture.{complete_hibernate_lifecycle, set_hibernate_lifecycle_failed}

abbrev pub hibernate_finalizer : String
hibernate_finalizer = "tamosshibernate.tamoss.livewyer.io/finalizer"

abbrev pub is_deprovisioning : OperationPhase → Bool
is_deprovisioning OperationPhase.deprovisioning_source = true
is_deprovisioning p = false

-- Whether the artifact of an operation is committed and its source is to be removed.
unfoldable pub is_committed : TamossHibernate → Bool
is_committed h = is_deprovisioning h.status.phase && not (h.status.artifact.checksum == "")

module _ (api : Api) where
  -- `failActiveHibernateLifecycle`, behind the read. The patch is `setHibernateLifecycleFailed`'s.
  unfoldable pub fail_found_lifecycle :
      TamossHibernate → String → Message → Option Tamoss → Action Call (Unit {0})
  unfolding set_hibernate_lifecycle_failed
  fail_found_lifecycle h reason message none = return tt
  fail_found_lifecycle h reason message (some t) =
      if operation_ref_matches t.status.lifecycle.active_operation_ref h.metadata hibernate_kind
      then (do set_hibernate_lifecycle_failed api t h reason message; return tt)
      else return tt

  -- `failActiveHibernateLifecycle`.
  unfoldable pub fail_active_hibernate_lifecycle :
      TamossHibernate → String → Message → Action Call (Unit {0})
  unfolding fail_found_lifecycle
  fail_active_hibernate_lifecycle h reason message =
      if h.spec.tamoss_ref == "" then return tt else (do
        read ← attempt (get_tamoss api h.metadata.namespace h.spec.tamoss_ref)
        found ← lift (or_absent read)
        fail_found_lifecycle h reason message found)

  unfoldable pub remove_hibernate_finalizer : TamossHibernate → Action Call ReconcileResult
  remove_hibernate_finalizer h = do
    let metadata = api.remove_finalizer h.metadata hibernate_finalizer
    write api (patch_hibernate (record h { metadata = metadata }))
    return done

  -- `finalizeHibernate` for an operation that is not committed.
  unfoldable pub finalize_uncommitted : TamossHibernate → Action Call ReconcileResult
  unfolding fail_active_hibernate_lifecycle remove_hibernate_finalizer
  finalize_uncommitted h = do
    let message = sprintf "TamossHibernate %s was deleted before completion" (h.metadata.name ∷ [])
    fail_active_hibernate_lifecycle h "LifecycleOperationDeleted" message
    if is_failed h.status.phase then remove_hibernate_finalizer h else (do
      updated ←
          update_hibernate_status api h OperationPhase.failed "LifecycleOperationDeleted" message
            h.status.artifact
      remove_hibernate_finalizer updated)

  module _ (cfg : Config) where
    -- `finalizeHibernate` for a committed operation, behind the removal of its source.
    unfoldable pub finalize_deprovisioned :
        TamossHibernate → Tamoss → Bool → Action Call ReconcileResult
    unfolding complete_hibernate_lifecycle remove_hibernate_finalizer
    finalize_deprovisioned h t gone =
        if gone
        then (do complete_hibernate_lifecycle api t h; remove_hibernate_finalizer h)
        else return (requeue (poll cfg))

    -- `finalizeHibernate` for a committed operation, behind the read of its instance.
    unfoldable pub finalize_committed :
        TamossHibernate → Option Tamoss → Action Call ReconcileResult
    unfolding finalize_deprovisioned hibernate_lifecycle_owned_by deprovision_source
        remove_hibernate_finalizer
    finalize_committed h none = remove_hibernate_finalizer h
    finalize_committed h (some t) =
        if hibernate_lifecycle_owned_by t h
        then (do gone ← deprovision_source api t; finalize_deprovisioned h t gone)
        else throw (
            errorf "tamoss %s no longer holds committed hibernation %s"
              (t.metadata.name ∷ h.metadata.name ∷ []))

    -- `finalizeHibernate`.
    unfoldable pub finalize_hibernate : TamossHibernate → Action Call ReconcileResult
    unfolding is_committed finalize_committed finalize_uncommitted remove_hibernate_finalizer
    finalize_hibernate h =
        if not (api.contains_finalizer h.metadata hibernate_finalizer)
        then return done
        else if is_committed h
        then (do
          read ← attempt (get_tamoss api h.metadata.namespace h.spec.tamoss_ref)
          found ← lift (or_absent read)
          finalize_committed h found)
        else if is_completed h.status.phase
        then remove_hibernate_finalizer h
        else finalize_uncommitted h
