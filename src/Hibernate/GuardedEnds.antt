-- ===== src/Hibernate/GuardedEnds.antt =====
-- The retry, the removal of the source and the deletion of a hibernation keep to the discipline.
use tamoss.Base.{◌≡◌, Bool, true, false, not, String, Option, none, some, arith}
use tamoss.Base.{◌&&◌}
use tamoss.Kube.{Message}
use tamoss.Config.{Config}
use tamoss.Effect.Preserves.{
  Preserves-Every, Preserves-return, Preserves-if, Preserves-throw, preserves_rules,
}
use tamoss.Resources.{TamossHibernate, Tamoss, Cluster, Backup}
use tamoss.Cluster.{Api}
use tamoss.Lifecycle.{set_lifecycle_operation_state}
use tamoss.Hibernate.Workloads.{deprovision_found, deprovision_source}
use tamoss.Hibernate.Capture.{complete_hibernate_lifecycle, set_hibernate_lifecycle_failed}
use tamoss.Hibernate.Retry.{
  accept_operation_retry, retry_found_backup, rearm, rearmed, remove_failed_backup,
  is_backup_failed,
}
use tamoss.Hibernate.Finalize.{
  is_deprovisioning, is_committed, finalize_hibernate, finalize_committed, finalize_uncommitted,
  finalize_deprovisioned, remove_hibernate_finalizer, fail_active_hibernate_lifecycle,
  fail_found_lifecycle,
}
use tamoss.Hibernate.Discipline.{MayCall, MayReport, MayEnter, Keeps}
use tamoss.Hibernate.StatusDiscipline.{Keeps-update, Keeps-patch_lifecycle}

not-false : (b : Bool) → not b ≡ false → b ≡ true
not-false b e = ground arith

and-left : (a b : Bool) → (a && b) ≡ true → a ≡ true
and-left a b e = ground arith

and-right : (a b : Bool) → (a && b) ≡ true → b ≡ true
and-right a b e = ground arith

module _ (api : Api) (h : TamossHibernate) where
  Keeps-deprovision_found :
      (t : Tamoss) (c : Option Cluster)
      → is_deprovisioning h.status.phase ≡ true
      → Keeps api h (deprovision_found api t c)
  unfolding MayCall deprovision_found
  Keeps-deprovision_found t none going = Preserves-return _
  Keeps-deprovision_found t (some c) going =
      Preserves-if _ _ _ (λ _. Preserves-throw _)
        (λ (owned : not (api.is_controlled_by c.metadata t.metadata) ≡ false).
          search
            (
              preserves_rules,
              Preserves-Every (MayCall api h),
              going,
              not-false (api.is_controlled_by c.metadata t.metadata) owned,
            )
            depth 20)

  pub Keeps-deprovision :
      (t : Tamoss)
      → is_deprovisioning h.status.phase ≡ true
      → Keeps api h (deprovision_source api t)
  unfolding MayCall deprovision_source
  Keeps-deprovision t going =
      search (preserves_rules, Preserves-Every (MayCall api h), Keeps-deprovision_found, going)
        depth 20

  pub Keeps-complete :
      (t : Tamoss) (u : TamossHibernate)
      → is_deprovisioning h.status.phase ≡ true
      → Keeps api h (complete_hibernate_lifecycle api t u)
  unfolding MayEnter complete_hibernate_lifecycle set_lifecycle_operation_state
  Keeps-complete t u going = Keeps-patch_lifecycle api h _ t (λ _. going)

  Keeps-remove_finalizer : (u : TamossHibernate) → Keeps api h (remove_hibernate_finalizer api u)
  unfolding MayCall remove_hibernate_finalizer
  Keeps-remove_finalizer u = search (preserves_rules, Preserves-Every (MayCall api h)) depth 20

  Keeps-remove_backup :
      (b : Backup)
      → api.is_controlled_by b.metadata h.metadata ≡ true
      → is_backup_failed b.status.phase ≡ true
      → Keeps api h (remove_failed_backup api b)
  unfolding MayCall remove_failed_backup
  Keeps-remove_backup b owned failed =
      search (preserves_rules, Preserves-Every (MayCall api h), owned, failed) depth 20

  Keeps-rearm : (u : TamossHibernate) (v : String) → Keeps api h (rearm api u v)
  unfolding MayCall rearm rearmed
  Keeps-rearm u v = search (preserves_rules, Preserves-Every (MayCall api h)) depth 20

  Keeps-retry_found : (v : String) (b : Option Backup) → Keeps api h (retry_found_backup api h v b)
  unfolding retry_found_backup
  Keeps-retry_found v none = Keeps-rearm h v
  Keeps-retry_found v (some b) =
      Preserves-if _ _ _ (λ both. Keeps-remove_backup b (and-left _ _ both) (and-right _ _ both))
        (λ _. Keeps-rearm h v)

  pub Keeps-retry : Keeps api h (accept_operation_retry api h)
  unfolding MayCall accept_operation_retry
  Keeps-retry =
      search (preserves_rules, Preserves-Every (MayCall api h), Keeps-retry_found) depth 20

  Keeps-fail_found :
      (u : TamossHibernate) (r : String) (m : Message) (t : Option Tamoss)
      → Keeps api h (fail_found_lifecycle api u r m t)
  unfolding MayEnter fail_found_lifecycle set_hibernate_lifecycle_failed
      set_lifecycle_operation_state
  Keeps-fail_found u r m none = Preserves-return _
  Keeps-fail_found u r m (some t) = search (preserves_rules, Keeps-patch_lifecycle api h) depth 20

  Keeps-fail_active :
      (u : TamossHibernate) (r : String) (m : Message)
      → Keeps api h (fail_active_hibernate_lifecycle api u r m)
  unfolding MayCall fail_active_hibernate_lifecycle
  Keeps-fail_active u r m =
      search (preserves_rules, Preserves-Every (MayCall api h), Keeps-fail_found) depth 20

  Keeps-finalize_uncommitted : (u : TamossHibernate) → Keeps api h (finalize_uncommitted api u)
  unfolding MayReport finalize_uncommitted
  Keeps-finalize_uncommitted u =
      search (preserves_rules, Keeps-fail_active, Keeps-remove_finalizer, Keeps-update api h) depth
        20

  Keeps-finalize_deprovisioned :
      (cfg : Config) (u : TamossHibernate) (t : Tamoss) (gone : Bool)
      → is_deprovisioning h.status.phase ≡ true
      → Keeps api h (finalize_deprovisioned api cfg u t gone)
  unfolding finalize_deprovisioned
  Keeps-finalize_deprovisioned cfg u t gone going =
      search (preserves_rules, Keeps-complete, Keeps-remove_finalizer, going) depth 20

  Keeps-finalize_committed :
      (cfg : Config) (u : TamossHibernate) (t : Option Tamoss)
      → is_deprovisioning h.status.phase ≡ true
      → Keeps api h (finalize_committed api cfg u t)
  unfolding finalize_committed
  Keeps-finalize_committed cfg u none going = Keeps-remove_finalizer u
  Keeps-finalize_committed cfg u (some t) going =
      search (preserves_rules, Keeps-deprovision, Keeps-finalize_deprovisioned, going) depth 20

  committed-deprovisioning : is_committed h ≡ true → is_deprovisioning h.status.phase ≡ true
  unfolding is_committed
  committed-deprovisioning e = ground arith

  pub Keeps-finalize : (cfg : Config) → Keeps api h (finalize_hibernate api cfg h)
  unfolding MayCall finalize_hibernate
  Keeps-finalize cfg =
      search
        (
          preserves_rules,
          Preserves-Every (MayCall api h),
          Keeps-finalize_committed,
          committed-deprovisioning,
          Keeps-remove_finalizer,
          Keeps-finalize_uncommitted,
        )
        depth 20
