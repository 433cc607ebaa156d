-- ===== src/Hibernate/Guarded.antt =====
-- A whole reconcile of a hibernation keeps to the discipline of its calls.
use tamoss.Base.{◌≡◌, refl, Bool, true, false, not, String, inl, Option, none, some}
use tamoss.Base.{◌==◌}
use tamoss.Kube.{Error, ReconcileResult}
use tamoss.Config.{Config}
use tamoss.Effect.{Result, ok, err, Action}
use tamoss.Effect.Preserves.{Preserves-Every, Preserves-bind, Preserves-return, preserves_rules}
use tamoss.Resources.{TamossHibernate, Tamoss, Cluster}
use tamoss.Resources.Storage.{StorageBackend}
use tamoss.Resources.Lifecycle.{Artifact}
use tamoss.Cluster.{Api, Call}
use tamoss.Base.{ap, if◌then◌else◌}
use tamoss.Hibernate.Prefix.{driver_cnpg_physical, hibernate_driver}
use tamoss.Hibernate.Source.{Stage, proceed, halt, build_hibernate_artifact, with_manifest_uri}
use tamoss.Hibernate.Workloads.{
  quiesce_tamoss_workloads, ensure_backup_configuration, quiesced_components,
}
use tamoss.Hibernate.Capture.{reconcile_source_deprovisioning, source_deprovisioned}
use tamoss.Hibernate.Finalize.{is_deprovisioning}
use tamoss.Hibernate.Reconcile.{
  or_wait, or_stop, capture_when_quiesced, reconcile_claimed, reconcile_compatible, fail_operation,
  check_source_schema, check_compatibility, check_artifact, reconcile_operation,
  reconcile_not_retried, add_hibernate_finalizer, reconcile_found,
}
use tamoss.Hibernate.Discipline.{
  MayCall, MayReport, Keeps, Keeps-suspend_scheduled_backup, Keeps-quiesce_components,
}
use tamoss.Hibernate.StatusDiscipline.{Keeps-update}
use tamoss.Hibernate.Safety.{
  Keeps-resolve_tamoss, Keeps-resolve_destination, Keeps-load_cluster, Keeps-validate_schema,
  Keeps-acquire,
}
use tamoss.Hibernate.Commit.{Keeps-report, Keeps-capture}
use tamoss.Hibernate.GuardedEnds.{Keeps-finalize, Keeps-retry, Keeps-deprovision, Keeps-complete}

driver-nonempty :
    (s : String) (b : Bool)
    → (s == "") ≡ b
    → not ((if b then driver_cnpg_physical else s) == "") ≡ true
driver-nonempty s true e = refl
driver-nonempty s false e = ap not e

driver-set : (h : TamossHibernate) → not (hibernate_driver h == "") ≡ true
unfolding hibernate_driver
driver-set h = driver-nonempty h.spec.driver _ refl

module _ (api : Api) (h : TamossHibernate) where
  uri-driver :
      (a : Artifact) (bucket : String) (r : Result (Unit {0}))
      → not (a.driver == "") ≡ true
      → not ((with_manifest_uri api a bucket r).0.driver == "") ≡ true
  unfolding with_manifest_uri
  uri-driver a bucket (ok u) set = set
  uri-driver a bucket (err e) set = set

  -- The source is removed in no other phase.
  Keeps-source_deprovisioned :
      (cfg : Config) (u : TamossHibernate) (t : Tamoss) (gone : Bool)
      → is_deprovisioning h.status.phase ≡ true
      → Keeps api h (source_deprovisioned api cfg t u gone)
  unfolding MayReport source_deprovisioned
  Keeps-source_deprovisioned cfg u t gone going =
      search
        (
          preserves_rules,
          Keeps-report api h cfg,
          Keeps-complete api h,
          Keeps-update api h,
          inl,
          going,
        )
        depth 20

  Keeps-reconcile_deprovisioning :
      (cfg : Config) (u : TamossHibernate) (t : Tamoss)
      → is_deprovisioning h.status.phase ≡ true
      → Keeps api h (reconcile_source_deprovisioning api cfg t u)
  unfolding reconcile_source_deprovisioning
  Keeps-reconcile_deprovisioning cfg u t going =
      search (preserves_rules, Keeps-deprovision api h, Keeps-source_deprovisioned, going) depth 20

  Keeps-quiesce : (t : Tamoss) → Keeps api h (quiesce_tamoss_workloads api t)
  unfolding quiesce_tamoss_workloads
  Keeps-quiesce t = Keeps-quiesce_components api h t quiesced_components

  Keeps-configuration :
      (c : Cluster) (u : TamossHibernate) (b : StorageBackend)
      → Keeps api h (ensure_backup_configuration api c u b)
  unfolding MayCall ensure_backup_configuration
  Keeps-configuration c u b = search (preserves_rules, Preserves-Every (MayCall api h)) depth 20

  module _ (cfg : Config) where
    Keeps-or_wait :
        {A : Type 0}
        → (s : Stage A) (k : A → Action Call ReconcileResult) → ((x : A) → Keeps api h (k x))
        → Keeps api h (or_wait api cfg s k)
    Keeps-or_wait (proceed x) k kk = kk x
    Keeps-or_wait (halt u) k kk = Preserves-return _

    Keeps-or_stop :
        {A : Type 0}
        → (s : Stage A) (k : A → Action Call ReconcileResult) → ((x : A) → Keeps api h (k x))
        → Keeps api h (or_stop api cfg s k)
    Keeps-or_stop (proceed x) k kk = kk x
    Keeps-or_stop (halt u) k kk = Preserves-return _

    module _ (u : TamossHibernate) (d : StorageBackend) (a : Artifact)
        (set : not (a.driver == "") ≡ true) where
      Keeps-when_quiesced :
          (t : Tamoss) (c : Cluster) (q : Bool)
          → Keeps api h (capture_when_quiesced api cfg u t c d a q)
      unfolding MayReport capture_when_quiesced
      Keeps-when_quiesced t c q =
          search (preserves_rules, Keeps-report api h cfg, Keeps-capture api h cfg t u c d a set)
            depth 20

      Keeps-claimed : (c : Cluster) (t : Tamoss) → Keeps api h (reconcile_claimed api cfg u c d a t)
      unfolding reconcile_claimed
      Keeps-claimed c t =
          search
            (
              preserves_rules,
              Keeps-suspend_scheduled_backup api h,
              Keeps-configuration,
              Keeps-quiesce,
              Keeps-when_quiesced,
            )
            depth 20

    module _ (d : StorageBackend) (a : Artifact) (set : not (a.driver == "") ≡ true) where
      Keeps-compatible : (t : Tamoss) → Keeps api h (reconcile_compatible api cfg h t d a)
      unfolding reconcile_compatible
      Keeps-compatible t =
          search
            (
              preserves_rules,
              Keeps-reconcile_deprovisioning cfg h t,
              Keeps-load_cluster api h,
              Keeps-or_wait,
              Keeps-or_stop,
              Keeps-acquire api h,
              Keeps-claimed h d a set,
            )
            depth 20

      Keeps-fail_operation :
          (r : String) (e : Error) (b : Artifact) → Keeps api h (fail_operation api cfg h r e b)
      unfolding MayReport fail_operation
      Keeps-fail_operation r e b = search (preserves_rules, Keeps-update api h) depth 20

      Keeps-check_source_schema : (t : Tamoss) → Keeps api h (check_source_schema api cfg h t d a)
      unfolding check_source_schema
      Keeps-check_source_schema t =
          search (preserves_rules, Keeps-validate_schema api h, Keeps-or_wait, Keeps-compatible)
            depth 20

      Keeps-check_compatibility :
          (t : Tamoss) (e : Option Error) → Keeps api h (check_compatibility api cfg h t d a e)
      unfolding check_compatibility
      Keeps-check_compatibility t none = Keeps-check_source_schema t
      Keeps-check_compatibility t (some e) = Keeps-fail_operation _ e a

    Keeps-check_artifact :
        (t : Tamoss) (d : StorageBackend) (p : Artifact × Result (Unit {0}))
        → not (p.0.driver == "") ≡ true
        → Keeps api h (check_artifact api cfg h t d p)
    unfolding check_artifact
    Keeps-check_artifact t d (a, err e) set = Keeps-fail_operation d a set _ e a
    Keeps-check_artifact t d (a, ok v) set = Keeps-check_compatibility d a set t _

    build-driver :
        (b : StorageBackend) → not ((build_hibernate_artifact api h b).0.driver == "") ≡ true
    unfolding build_hibernate_artifact
    build-driver b = search (uri-driver, driver-set)

    Keeps-operation : Keeps api h (reconcile_operation api cfg h)
    unfolding reconcile_operation
    Keeps-operation =
        search
          (
            preserves_rules,
            Keeps-resolve_tamoss api h,
            Keeps-resolve_destination api h,
            Keeps-or_wait,
            Keeps-check_artifact,
            build-driver,
          )
          depth 20

    Keeps-not_retried : (accepted : Bool) → Keeps api h (reconcile_not_retried api cfg h accepted)
    unfolding reconcile_not_retried
    Keeps-not_retried accepted = search (preserves_rules, Keeps-operation) depth 20

    Keeps-add_finalizer : Keeps api h (add_hibernate_finalizer api cfg h)
    unfolding MayCall add_hibernate_finalizer
    Keeps-add_finalizer = search (preserves_rules, Preserves-Every (MayCall api h)) depth 20

    pub Keeps-reconcile_found : Keeps api h (reconcile_found api cfg (some h))
    unfolding reconcile_found
    Keeps-reconcile_found =
        search
          (
            preserves_rules,
            Keeps-finalize api h cfg,
            Keeps-add_finalizer,
            Preserves-bind _ _ (Keeps-retry api h) Keeps-not_retried,
          )
          depth 20
