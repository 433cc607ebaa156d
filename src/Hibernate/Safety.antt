-- ===== src/Hibernate/Safety.antt =====
-- Every reconcile of a hibernation keeps to the discipline.
use tamoss.Base.{String, Option, none, some}
use tamoss.Config.{Config}
use tamoss.Effect.{Result, ok, err}
use tamoss.Effect.Preserves.{Preserves-Every, Preserves-return, preserves_rules}
use tamoss.Resources.{TamossHibernate, Tamoss, Cluster}
use tamoss.Resources.Storage.{StorageBackend}
use tamoss.Resources.Lifecycle.{Artifact}
use tamoss.Cluster.{Api}
use tamoss.Hibernate.Source.{
  claim_lifecycle, acquire_hibernate_lifecycle, resolve_hibernate_tamoss, found_hibernate_tamoss,
  resolved_hibernate_tamoss, resolve_hibernate_destination, found_hibernate_destination,
  load_hibernate_cluster, found_hibernate_cluster, validate_hibernate_source_schema,
}
use tamoss.Lifecycle.{set_lifecycle_operation_state}
use tamoss.Hibernate.Discipline.{MayCall, MayReport, MayEnter, Keeps}
use tamoss.Hibernate.StatusDiscipline.{Keeps-halt_with, Keeps-patch_lifecycle}

module _ (api : Api) (h : TamossHibernate) where
  pub Keeps-resolved_tamoss :
      (cfg : Config) (u : TamossHibernate) (r : Result Tamoss)
      → Keeps api h (resolved_hibernate_tamoss api cfg u r)
  unfolding MayReport resolved_hibernate_tamoss
  Keeps-resolved_tamoss cfg u (ok t) = search preserves_rules
  Keeps-resolved_tamoss cfg u (err e) = Keeps-halt_with api h u _ _ _ _ (λ _ _. tt)

  pub Keeps-found_tamoss :
      (cfg : Config) (u : TamossHibernate) (r : Option Tamoss)
      → Keeps api h (found_hibernate_tamoss api cfg u r)
  unfolding MayReport found_hibernate_tamoss
  Keeps-found_tamoss cfg u (some t) = Keeps-resolved_tamoss cfg u _
  Keeps-found_tamoss cfg u none = Keeps-halt_with api h u _ _ _ _ (λ _ _. tt)

  pub Keeps-resolve_tamoss :
      (cfg : Config) (u : TamossHibernate) → Keeps api h (resolve_hibernate_tamoss api cfg u)
  unfolding MayCall resolve_hibernate_tamoss
  Keeps-resolve_tamoss cfg u =
      search
        (
          preserves_rules,
          Preserves-Every (MayCall api h),
          Keeps-found_tamoss,
          Keeps-halt_with api h,
        )
        depth 20

  pub Keeps-found_destination :
      (u : TamossHibernate) (b : Option StorageBackend)
      → Keeps api h (found_hibernate_destination api u b)
  unfolding MayReport found_hibernate_destination
  Keeps-found_destination u none = Keeps-halt_with api h u _ _ _ _ (λ _ _. tt)
  Keeps-found_destination u (some b) = search (preserves_rules, Keeps-halt_with api h) depth 20

  pub Keeps-resolve_destination :
      (u : TamossHibernate) → Keeps api h (resolve_hibernate_destination api u)
  unfolding MayCall resolve_hibernate_destination
  Keeps-resolve_destination u =
      search
        (
          preserves_rules,
          Preserves-Every (MayCall api h),
          Keeps-found_destination,
          Keeps-halt_with api h,
        )
        depth 20

  pub Keeps-found_cluster :
      (u : TamossHibernate) (n : String) (a : Artifact) (c : Option Cluster)
      → Keeps api h (found_hibernate_cluster api u n a c)
  unfolding MayReport found_hibernate_cluster
  Keeps-found_cluster u n a none = Keeps-halt_with api h u _ _ _ _ (λ _ _. tt)
  Keeps-found_cluster u n a (some c) = Preserves-return _

  pub Keeps-load_cluster :
      (u : TamossHibernate) (t : Tamoss) (a : Artifact)
      → Keeps api h (load_hibernate_cluster api u t a)
  unfolding MayCall load_hibernate_cluster
  Keeps-load_cluster u t a =
      search (preserves_rules, Preserves-Every (MayCall api h), Keeps-found_cluster) depth 20

  pub Keeps-validate_schema :
      (u : TamossHibernate) (cfg : Config) (t : Tamoss) (a : Artifact)
      → Keeps api h (validate_hibernate_source_schema api u cfg t a)
  unfolding MayReport validate_hibernate_source_schema
  Keeps-validate_schema u cfg t a = search (preserves_rules, Keeps-halt_with api h) depth 20

  pub Keeps-claim : (u : TamossHibernate) (t : Tamoss) → Keeps api h (claim_lifecycle api u t)
  unfolding MayEnter claim_lifecycle set_lifecycle_operation_state
  Keeps-claim u t = search (preserves_rules, Keeps-patch_lifecycle api h) depth 20

  pub Keeps-acquire :
      (u : TamossHibernate) (t : Tamoss) → Keeps api h (acquire_hibernate_lifecycle api u t)
  unfolding MayReport acquire_hibernate_lifecycle
  Keeps-acquire u t = search (preserves_rules, Keeps-halt_with api h, Keeps-claim) depth 20
