-- ===== src/Hibernate/Commit.antt =====
-- The commit of an artifact: the status that starts the removal of the source follows the upload of
-- the manifest.
use tamoss.Base.{◌≡◌, refl, subst, sym, ap, Bool, true, not, String, List, ◌∷◌, inr, arith}
use tamoss.Base.{◌==◌, if◌then◌else◌}
use tamoss.Kube.{Message}
use tamoss.Config.{Config}
use tamoss.Effect.{Result, ok, err, return, attempt, call, ◌>>=◌}
use tamoss.Effect.Preserves.{
  Every, Preserves-bind, Ends, Ends-bind, Ends-observe, Ends-call, Ends-Preserves, Ends-if,
  Every-cons, Preserves-return, preserves_rules,
}
use tamoss.Resources.{
  TamossHibernate, Tamoss, Cluster, Backup, BackupPhase, backup_unset, backup_failed,
  backup_completed, backup_other,
}
use tamoss.Resources.Storage.{StorageBackend, StorageBackendSpec}
use tamoss.Resources.Manifest.{Manifest}
use tamoss.Resources.Lifecycle.{Artifact, OperationPhase}
use tamoss.Cluster.{Api, Call, write_manifest}
use tamoss.Lifecycle.{set_lifecycle_operation_state}
use tamoss.Lifecycle.Operation.{
  update_hibernate_status, with_operation_status, set_operation_status, artifact_is_set,
}
use tamoss.Hibernate.Capture.{
  backup_phase_text, report_and_poll, manifest_written, write_hibernate_manifest,
  build_hibernation_manifest, follow_backup, capture_backup, fail_both,
  set_hibernate_lifecycle_failed, with_backup, cnpg_backup_status, reconcile_hibernate_capture,
}
use tamoss.Hibernate.Discipline.{
  MayCall, MayReport, MayEnter, IsBacked, Keeps, Keeps-record_operation_events, Keeps-ensure_backup,
}
use tamoss.Hibernate.StatusDiscipline.{Keeps-update, Keeps-patch_lifecycle}

module _ (api : Api) (h : TamossHibernate) where
  abbrev Kept : List Call → Type 0
  Kept log = Every (MayCall api h) log

  -- A status written behind a log.
  pub update-Kept :
      (u : TamossHibernate) (p : OperationPhase) (reason : String) (m : Message) (a : Artifact)
      (log : List Call)
      → Kept log
      → MayReport api h p (if artifact_is_set a then a else u.status.artifact) log
      → Ends Kept (update_hibernate_status api u p reason m a) log
  unfolding MayCall update_hibernate_status with_operation_status set_operation_status
  update-Kept u p reason m a log k may = Ends-observe _ _ log (
      Ends-if _ _ _ log (Ends-Preserves _ log (Preserves-return _) k) (
        Ends-call _ _ _ log (Every-cons (MayCall api h) _ log may k) (λ answered.
          Preserves-bind _ _
            (Keeps-record_operation_events api h u.metadata.name u.status answered.status)
            (λ _. Preserves-return answered))))

  module _ (cfg : Config) where
    pub Keeps-report :
        (u : TamossHibernate) (p : OperationPhase) (reason : String) (m : Message) (a : Artifact)
        → ((b : Artifact) (log : List Call) → MayReport api h p b log)
        → Keeps api h (report_and_poll api cfg u p reason m a)
    unfolding report_and_poll
    Keeps-report u p reason m a free = search (preserves_rules, Keeps-update api h, free)

    pub Keeps-fail_both :
        (t : Tamoss) (u : TamossHibernate) (reason : String) (m : Message) (a : Artifact)
        → Keeps api h (fail_both api cfg t u reason m a)
    unfolding MayReport MayEnter fail_both set_hibernate_lifecycle_failed
        set_lifecycle_operation_state
    Keeps-fail_both t u reason m a =
        search (preserves_rules, Keeps-update api h, Keeps-patch_lifecycle api h) depth 20

    report-Kept :
        (u : TamossHibernate) (p : OperationPhase) (reason : String) (m : Message) (a : Artifact)
        (log : List Call)
        → Kept log
        → MayReport api h p (if artifact_is_set a then a else u.status.artifact) log
        → Ends Kept (report_and_poll api cfg u p reason m a) log
    unfolding report_and_poll
    report-Kept u p reason m a log k may =
        Ends-bind _ _ log (update-Kept u p reason m a log k may) (λ _. Preserves-return _)

    module _ (u : TamossHibernate) (a : Artifact) (set : artifact_is_set a ≡ true) where
      set-checksum : (checksum : String) → artifact_is_set (record a { checksum = checksum }) ≡ true
      unfolding artifact_is_set
      set-checksum checksum = set

      uploaded-Kept :
          (spec : StorageBackendSpec) (m : Manifest) (log : List Call) (r : Result String)
          → m.cnpg.phase ≡ "completed"
          → Kept log
          → api.upload log spec a.manifest_key m ≡ r
          → Kept
              ((attempt (
                    call (write_manifest spec a.manifest_key m) (λ _. r)
                    >>= (λ checksum. return (record a { checksum = checksum })))
                  >>= manifest_written api cfg u a)
                log).1
      unfolding MayCall manifest_written ◌>>=◌ IsBacked
      uploaded-Kept spec m log (err e) phase k answer =
          (Keeps-report u _ _ _ a (λ _ _. tt)).holds _ (Every-cons (MayCall api h) _ log phase k)
      uploaded-Kept spec m log (ok checksum) phase k answer =
          (report-Kept u _ _ _ _ _ (Every-cons (MayCall api h) _ log phase k) (
            inr (
              subst (λ b. IsBacked api h b (write_manifest spec a.manifest_key m ∷ log))
                (sym (
                  ap
                    (λ (c : Bool).
                      if c then (record a { checksum = checksum }) else u.status.artifact)
                    (set-checksum checksum)))
                (answer, refl, phase)))).holds

      Keeps-commit :
          (t : Tamoss) (b : StorageBackend)
          → a.cnpg_backup.phase ≡ "completed"
          → Keeps api h
              (attempt (write_hibernate_manifest api t b a) >>= manifest_written api cfg u a)
      unfolding write_hibernate_manifest build_hibernation_manifest ◌>>=◌
      Keeps-commit t b phase = record { holds = λ log k. uploaded-Kept _ _ log _ phase k refl }

    pub Keeps-follow_backup :
        (phase : BackupPhase) (t : Tamoss) (u : TamossHibernate) (d : StorageBackend) (b : Backup)
        (a : Artifact)
        → artifact_is_set a ≡ true
        → (phase ≡ backup_completed → a.cnpg_backup.phase ≡ "completed")
        → Keeps api h (follow_backup api cfg phase t u d b a)
    unfolding MayReport follow_backup
    Keeps-follow_backup backup_completed t u d b a set done = Keeps-commit u a set t d (done refl)
    Keeps-follow_backup backup_failed t u d b a set done = Keeps-fail_both t u _ _ _
    Keeps-follow_backup backup_unset t u d b a set done = Keeps-report u _ _ _ a (λ _ _. tt)
    Keeps-follow_backup (backup_other s) t u d b a set done = Keeps-report u _ _ _ a (λ _ _. tt)

    with_backup-completed :
        (c : Cluster) (b : Backup) (a : Artifact)
        → b.status.phase ≡ backup_completed
        → (with_backup c b a).cnpg_backup.phase ≡ "completed"
    unfolding with_backup cnpg_backup_status
    with_backup-completed c b a e = ap backup_phase_text e

    with_backup-set :
        (c : Cluster) (b : Backup) (a : Artifact)
        → not (a.driver == "") ≡ true
        → artifact_is_set (with_backup c b a) ≡ true
    unfolding with_backup artifact_is_set
    with_backup-set c b a e = ground arith

    pub Keeps-capture_backup :
        (t : Tamoss) (u : TamossHibernate) (c : Cluster) (d : StorageBackend) (a : Artifact)
        (b : Backup) (created : Bool)
        → not (a.driver == "") ≡ true
        → Keeps api h (capture_backup api cfg t u c d a b created)
    unfolding MayReport capture_backup
    Keeps-capture_backup t u c d a b created set =
        search
          (
            preserves_rules,
            Keeps-fail_both,
            Keeps-report u,
            Keeps-follow_backup _ t u d b _ (with_backup-set c b a set)
                (with_backup-completed c b a),
          )
          depth 20

    pub Keeps-capture :
        (t : Tamoss) (u : TamossHibernate) (c : Cluster) (d : StorageBackend) (a : Artifact)
        → not (a.driver == "") ≡ true
        → Keeps api h (reconcile_hibernate_capture api cfg t u c d a)
    unfolding reconcile_hibernate_capture
    Keeps-capture t u c d a set =
        Preserves-bind _ _ (Keeps-ensure_backup api h u t)
          (λ (b, created). Keeps-capture_backup t u c d a b created set)
