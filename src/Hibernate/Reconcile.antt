-- ===== src/Hibernate/Reconcile.antt =====
-- `(*TamossHibernateReconciler).Reconcile` (tamosshibernate_controller.go).
use mathlib.Core.Bool.{not}
use tamoss.Base.{String, Bool, ◌||◌, Option, none, some, is_none, if◌then◌else◌}
use tamoss.Kube.{Error, error_text, literal, ReconcileResult, done, requeue}
use tamoss.Effect.{Result, ok, err, Action, return, lift, attempt, or_absent, ◌>>=◌, ◌>>◌}
use tamoss.Config.{Config, poll, allows}
use tamoss.Resources.{Tamoss, TamossHibernate, Cluster}
use tamoss.Resources.Storage.{StorageBackend}
use tamoss.Resources.Lifecycle.{OperationPhase, Artifact}
use tamoss.Cluster.{Api, Call, get_hibernate, patch_hibernate, write}
use tamoss.Lifecycle.Operation.{
  is_completed, is_failed, operation_wait_result, update_hibernate_status,
}
use tamoss.Hibernate.Source.{
  Stage, proceed, halt, resolve_hibernate_tamoss, resolve_hibernate_destination,
  build_hibernate_artifact, hibernate_compatibility_error, validate_hibernate_source_schema,
  load_hibernate_cluster, acquire_hibernate_lifecycle,
}
use tamoss.Hibernate.Workloads.{
  suspend_scheduled_backup, ensure_backup_configuration, quiesce_tamoss_workloads,
}
use tamoss.Hibernate.Capture.{
  reconcile_hibernate_capture, reconcile_source_deprovisioning, report_and_poll,
}
use tamoss.Hibernate.Retry.{accept_operation_retry}
use tamoss.Hibernate.Finalize.{hibernate_finalizer, is_deprovisioning, finalize_hibernate}

module _ (api : Api) (cfg : Config) where
  -- Goes on with what a step hands on; an operation that has not ended is looked at again.
  abbrev pub or_wait :
      {A : Type 0} → Stage A → (A → Action Call ReconcileResult) → Action Call ReconcileResult
  or_wait (proceed a) k = k a
  or_wait (halt h) k = return (operation_wait_result h.status.phase (poll cfg))

  -- The same without another look.
  abbrev pub or_stop :
      {A : Type 0} → Stage A → (A → Action Call ReconcileResult) → Action Call ReconcileResult
  or_stop (proceed a) k = k a
  or_stop (halt h) k = return done

  -- The capture, behind the test that the workloads are at rest.
  unfoldable pub capture_when_quiesced :
      TamossHibernate
      → Tamoss
      → Cluster
      → StorageBackend
      → Artifact
      → Bool
      → Action Call ReconcileResult
  unfolding reconcile_hibernate_capture report_and_poll
  capture_when_quiesced h t c destination artifact quiesced =
      if quiesced
      then reconcile_hibernate_capture api cfg t h c destination artifact
      else report_and_poll api cfg h OperationPhase.quiescing "TamossHibernating"
          (literal "Waiting for TAMOSS workloads to terminate before database capture") artifact

  -- `Reconcile`, behind the claim on the lifecycle.
  unfoldable pub reconcile_claimed :
      TamossHibernate → Cluster → StorageBackend → Artifact → Tamoss → Action Call ReconcileResult
  unfolding suspend_scheduled_backup ensure_backup_configuration quiesce_tamoss_workloads
      capture_when_quiesced
  reconcile_claimed h c destination artifact t = do
    suspend_scheduled_backup api t
    configured ← ensure_backup_configuration api c h destination
    quiesced ← quiesce_tamoss_workloads api t
    capture_when_quiesced h t configured destination artifact quiesced

  -- `Reconcile`, behind the schema's check: the removal of the source, or the capture.
  unfoldable pub reconcile_compatible :
      TamossHibernate → Tamoss → StorageBackend → Artifact → Action Call ReconcileResult
  unfolding reconcile_source_deprovisioning load_hibernate_cluster acquire_hibernate_lifecycle
      reconcile_claimed
  reconcile_compatible h t destination artifact =
      if is_deprovisioning h.status.phase then reconcile_source_deprovisioning api cfg t h else (do
        loaded ← load_hibernate_cluster api h t artifact
        or_wait loaded (λ c. do
          acquired ← acquire_hibernate_lifecycle api h t
          or_stop acquired (reconcile_claimed h c destination artifact)))

  unfoldable pub fail_operation :
      TamossHibernate → String → Error → Artifact → Action Call ReconcileResult
  fail_operation h reason e artifact = do
    update_hibernate_status api h OperationPhase.failed reason (error_text e) artifact
    return done

  unfoldable pub check_source_schema :
      TamossHibernate → Tamoss → StorageBackend → Artifact → Action Call ReconcileResult
  unfolding validate_hibernate_source_schema reconcile_compatible
  check_source_schema h t destination artifact = do
    ready ← validate_hibernate_source_schema api h cfg t artifact
    or_wait ready (λ _. reconcile_compatible h t destination artifact)

  -- `Reconcile`, behind the artifact's description and behind its checks.
  unfoldable pub check_compatibility :
      TamossHibernate
      → Tamoss
      → StorageBackend
      → Artifact
      → Option Error
      → Action Call ReconcileResult
  unfolding check_source_schema fail_operation
  check_compatibility h t destination artifact none = check_source_schema h t destination artifact
  check_compatibility h t destination artifact (some e) =
      fail_operation h "UnsupportedProvider" e artifact

  unfoldable pub check_artifact :
      TamossHibernate
      → Tamoss
      → StorageBackend
      → Artifact × Result (Unit {0})
      → Action Call ReconcileResult
  unfolding check_compatibility hibernate_compatibility_error fail_operation
  check_artifact h t destination (artifact, err e) =
      fail_operation h "HibernateDestinationInvalid" e artifact
  check_artifact h t destination (artifact, ok u) =
      check_compatibility h t destination artifact (hibernate_compatibility_error t h)

  -- `Reconcile` of an operation that is to run.
  unfoldable pub reconcile_operation : TamossHibernate → Action Call ReconcileResult
  unfolding resolve_hibernate_tamoss resolve_hibernate_destination build_hibernate_artifact
      check_artifact
  reconcile_operation h = do
    resolved ← resolve_hibernate_tamoss api cfg h
    or_wait resolved (λ t. do
      prepared ← resolve_hibernate_destination api h
      or_wait prepared (λ destination.
          check_artifact h t destination (build_hibernate_artifact api h destination)))

  -- `Reconcile`, behind the retry.
  unfoldable pub reconcile_not_retried : TamossHibernate → Bool → Action Call ReconcileResult
  unfolding reconcile_operation
  reconcile_not_retried h accepted =
      if accepted
      then return (requeue (poll cfg))
      else if is_completed h.status.phase || is_failed h.status.phase
      then return done
      else reconcile_operation h

  unfoldable pub add_hibernate_finalizer : TamossHibernate → Action Call ReconcileResult
  add_hibernate_finalizer h = do
    let metadata = api.add_finalizer h.metadata hibernate_finalizer
    write api (patch_hibernate (record h { metadata = metadata }))
    return done

  -- `Reconcile`, behind the read.
  unfoldable pub reconcile_found : Option TamossHibernate → Action Call ReconcileResult
  unfolding finalize_hibernate add_hibernate_finalizer accept_operation_retry reconcile_not_retried
      allows
  reconcile_found none = return done
  reconcile_found (some h) =
      if not (allows cfg.watch_namespaces h.metadata.namespace)
      then return done
      else if not (is_none h.metadata.deletion_timestamp)
      then finalize_hibernate api cfg h
      else if not (api.contains_finalizer h.metadata hibernate_finalizer)
      then add_hibernate_finalizer h
      else (do accepted ← accept_operation_retry api h; reconcile_not_retried h accepted)

  -- `Reconcile` of a request.
  unfoldable pub reconcile : String → String → Action Call ReconcileResult
  unfolding reconcile_found
  reconcile namespace name = do
    read ← attempt (get_hibernate api namespace name)
    found ← lift (or_absent read)
    reconcile_found found
