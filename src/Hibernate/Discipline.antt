-- ===== src/Hibernate/Discipline.antt =====
-- What a reconcile of a hibernation may do to the data that it works on, as a discipline of its
-- calls, and that the steps behind it keep to it.
use tamoss.Base.{◌≡◌, true, String, List, [], ◌∷◌, ◌⊎◌}
use tamoss.Kube.{Message}
use tamoss.Effect.{ok, Action}
use tamoss.Effect.Preserves.{Preserves, Every, Preserves-Every, Preserves-bind, preserves_rules}
use tamoss.Resources.{TamossHibernate, Tamoss}
use tamoss.Resources.Lifecycle.{Artifact, OperationPhase, LifecyclePhase, OperationStatus}
use tamoss.Cluster.{
  Api, Call, patch_hibernate_status, delete_hibernate, patch_tamoss_status, delete_cluster,
  delete_backup, write_manifest, delete_prefix, emit,
}
use tamoss.Lifecycle.Operation.{record_operation_events}
use tamoss.Hibernate.Workloads.{
  ensure_backup, ensure_found_backup, quiesce_component, quiesce_components, suspend_found,
  suspend_scheduled_backup, quiesce_autoscaler, quiesce_deployment, scale_down,
}
use tamoss.Base.{Option, none, some}
use tamoss.Resources.{Backup, Autoscaler, ScheduledBackup, Deployment}
use tamoss.Effect.Preserves.{Preserves-return}
use tamoss.Hibernate.Retry.{is_backup_failed}
use tamoss.Hibernate.Finalize.{is_deprovisioning}

module _ (api : Api) (h : TamossHibernate) where
  -- The last call wrote the manifest of the artifact, of a completed backup, and the store
  -- answered with the checksum that the artifact has.
  unfoldable pub IsBacked : Artifact → List Call → Type 0
  IsBacked a (write_manifest spec key m ∷ log) =
      (api.upload log spec key m ≡ ok a.checksum)
      × (key ≡ a.manifest_key)
      × (m.cnpg.phase ≡ "completed")
  IsBacked a log = ⊥

  -- What the operation `h` may send, behind the calls of the log.
  unfoldable pub MayReport : OperationPhase → Artifact → List Call → Type 0
  unfolding IsBacked
  MayReport OperationPhase.deprovisioning_source a log =
      (is_deprovisioning h.status.phase ≡ true) ⊎ IsBacked a log
  MayReport OperationPhase.completed a log = is_deprovisioning h.status.phase ≡ true
  MayReport phase a log = Unit

  unfoldable pub MayEnter : LifecyclePhase → Type 0
  MayEnter LifecyclePhase.hibernated = is_deprovisioning h.status.phase ≡ true
  MayEnter phase = Unit

  unfoldable pub MayCall : Call → List Call → Type 0
  unfolding MayReport MayEnter
  MayCall (patch_hibernate_status u) log = MayReport u.status.phase u.status.artifact log
  MayCall (patch_tamoss_status t) log = MayEnter t.status.lifecycle.phase
  MayCall (delete_cluster c) log =
      (is_deprovisioning h.status.phase ≡ true)
      × (t : Tamoss) × (api.is_controlled_by c.metadata t.metadata ≡ true)
  MayCall (delete_backup b) log =
      (api.is_controlled_by b.metadata h.metadata ≡ true) × (is_backup_failed b.status.phase ≡ true)
  MayCall (write_manifest spec key m) log = m.cnpg.phase ≡ "completed"
  MayCall (delete_prefix spec prefix) log = ⊥
  MayCall (delete_hibernate u) log = ⊥
  MayCall c log = Unit

  abbrev pub Keeps : {A : Type 0} → Action Call A → Type 0
  Keeps m = Preserves (Every MayCall) m

  pub Keeps-emit : (k : _) (o r : String) (m : Message) → Keeps (emit api k o r m)
  unfolding MayCall
  Keeps-emit k o r m = Preserves-Every _ _ _ (λ _. tt)

  pub Keeps-record_operation_events :
      (name : String) (a b : OperationStatus) → Keeps (record_operation_events api name a b)
  unfolding record_operation_events
  Keeps-record_operation_events name a b = search (preserves_rules, Keeps-emit)

  pub Keeps-suspend_found :
      (t : Tamoss) (s : Option ScheduledBackup) → Keeps (suspend_found api t s)
  unfolding MayCall suspend_found
  Keeps-suspend_found t none = search preserves_rules
  Keeps-suspend_found t (some s) = search (preserves_rules, Preserves-Every MayCall)

  pub Keeps-suspend_scheduled_backup : (t : Tamoss) → Keeps (suspend_scheduled_backup api t)
  unfolding MayCall suspend_scheduled_backup
  Keeps-suspend_scheduled_backup t =
      search (preserves_rules, Preserves-Every MayCall, Keeps-suspend_found)

  pub Keeps-quiesce_autoscaler :
      (t : Tamoss) (a : Option Autoscaler) → Keeps (quiesce_autoscaler api t a)
  unfolding MayCall quiesce_autoscaler
  Keeps-quiesce_autoscaler t none = search preserves_rules
  Keeps-quiesce_autoscaler t (some a) = search (preserves_rules, Preserves-Every MayCall)

  pub Keeps-scale_down : (d : Deployment) → Keeps (scale_down api d)
  unfolding MayCall scale_down
  Keeps-scale_down d = search (preserves_rules, Preserves-Every MayCall)

  pub Keeps-quiesce_deployment :
      (t : Tamoss) (d : Option Deployment) → Keeps (quiesce_deployment api t d)
  unfolding MayCall quiesce_deployment
  Keeps-quiesce_deployment t none = search preserves_rules
  Keeps-quiesce_deployment t (some d) =
      search (preserves_rules, Preserves-Every MayCall, Keeps-scale_down) depth 16

  pub Keeps-quiesce_component : (t : Tamoss) (c : String) → Keeps (quiesce_component api t c)
  unfolding MayCall quiesce_component
  Keeps-quiesce_component t c =
      search
        (
          preserves_rules,
          Preserves-Every MayCall,
          Keeps-quiesce_autoscaler,
          Keeps-quiesce_deployment,
        )
        depth 20

  pub Keeps-quiesce_components :
      (t : Tamoss) (cs : List String) → Keeps (quiesce_components api t cs)
  unfolding quiesce_components
  Keeps-quiesce_components t [] = search preserves_rules
  Keeps-quiesce_components t (c ∷ cs) =
      Preserves-bind _ _ (Keeps-quiesce_component t c)
        (λ q. Preserves-bind _ _ (Keeps-quiesce_components t cs) (λ r. Preserves-return _))

  pub Keeps-ensure_found_backup :
      (u : TamossHibernate) (t : Tamoss) (b : Option Backup) → Keeps (ensure_found_backup api u t b)
  unfolding MayCall ensure_found_backup
  Keeps-ensure_found_backup u t none = search (preserves_rules, Preserves-Every MayCall) depth 16
  Keeps-ensure_found_backup u t (some b) = search preserves_rules

  pub Keeps-ensure_backup : (u : TamossHibernate) (t : Tamoss) → Keeps (ensure_backup api u t)
  unfolding MayCall ensure_backup
  Keeps-ensure_backup u t =
      search (preserves_rules, Preserves-Every MayCall, Keeps-ensure_found_backup) depth 16
