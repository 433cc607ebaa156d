-- ===== src/Hibernate/Retry.antt =====
-- The retry of a failed hibernation by its annotation (tamosshibernate_controller.go).
use mathlib.Core.Bool.{not}
use tamoss.Base.{
  String, ◌==◌, Bool, true, false, ◌&&◌, ◌||◌, Option, none, some, [], ◌∷◌, is_none, if◌then◌else◌,
}
use tamoss.Base.Assoc.{get}
use tamoss.Base.Text.{trim_space}
use tamoss.Kube.{sprintf}
use tamoss.Effect.{Action, return, lift, attempt, or_absent, ignore_not_found, ◌>>=◌, ◌>>◌}
use tamoss.Resources.{TamossHibernate, Backup, BackupPhase, backup_failed}
use tamoss.Resources.Lifecycle.{OperationPhase}
use tamoss.Cluster.{
  Api, Call, normal, get_backup, delete_backup, send_hibernate_status, write, emit,
}
use tamoss.Lifecycle.Operation.{is_failed}

abbrev pub operation_retry : String
operation_retry = "tamoss.livewyer.io/operation-retry"

abbrev pub is_backup_failed : BackupPhase → Bool
is_backup_failed backup_failed = true
is_backup_failed p = false

-- The value of the retry annotation.
unfoldable pub retry_value : TamossHibernate → String
retry_value h = trim_space (get operation_retry h.metadata.annotations)

-- The status of an operation that runs again.
unfoldable pub rearmed : String → TamossHibernate → TamossHibernate
rearmed value h = record h {
  status = record (h.status) {
    phase = OperationPhase.unset;
    reason = "Reconciling";
    message = sprintf "Retry %q accepted; the operation will run again" (value ∷ []);
    completed_at = none;
    started_at = none;
    accepted_retry = value;
  };
}

module _ (api : Api) where
  -- `acceptOperationRetry`, where nothing of the failed run is left.
  unfoldable pub rearm : TamossHibernate → String → Action Call Bool
  unfolding rearmed
  rearm h value = do
    again ← send_hibernate_status api (rearmed value h)
    emit api normal h.metadata.name again.status.reason again.status.message
    return true

  -- A failed backup of the operation's cannot run again: it is removed first.
  unfoldable pub remove_failed_backup : Backup → Action Call Bool
  remove_failed_backup b =
      if is_none b.metadata.deletion_timestamp
      then (do
        deleted ← attempt (write api (delete_backup b))
        lift (ignore_not_found deleted)
        return true)
      else return true

  -- `acceptOperationRetry`, behind the read of the backup.
  unfoldable pub retry_found_backup : TamossHibernate → String → Option Backup → Action Call Bool
  unfolding rearm remove_failed_backup
  retry_found_backup h value none = rearm h value
  retry_found_backup h value (some b) =
      if api.is_controlled_by b.metadata h.metadata && is_backup_failed b.status.phase
      then remove_failed_backup b
      else rearm h value

  -- `acceptOperationRetry`: whether a retry was taken up.
  unfoldable pub accept_operation_retry : TamossHibernate → Action Call Bool
  unfolding retry_value retry_found_backup
  accept_operation_retry h =
      let value = retry_value h in
      if value == "" || not (is_failed h.status.phase) || h.status.accepted_retry == value
      then return false
      else (do
        read ← attempt (get_backup api h.metadata.namespace h.metadata.name)
        found ← lift (or_absent read)
        retry_found_backup h value found)
