-- ===== src/Lifecycle/Preserved.antt =====
-- A discipline that allows the read of an instance and the status that a mutation makes allows the
-- whole patch, whatever conflicts it meets.
use tamoss.Base.{ℕ, zero, suc, String, List}
use tamoss.Kube.{Time, conflict}
use tamoss.Effect.{Result, ok, err, Action}
use tamoss.Effect.Preserves.{
  Preserves, Every, Preserves-Every, Preserves-bind, Preserves-lift, Preserves-attempt,
  preserves_rules,
}
use tamoss.Resources.{Tamoss}
use tamoss.Resources.Lifecycle.{LifecycleStatus}
use tamoss.Cluster.{Api, Call, get, patch_tamoss_status}
use tamoss.Lifecycle.{
  with_lifecycle, lifecycle_patch_once, on_conflict, lifecycle_patch_rounds, patch_lifecycle,
}

module _ (api : Api) (allowed : Call → List Call → Type 0)
    (may_get : (ns n : String) (log : List Call) → allowed (get "Tamoss" ns n) log)
    (mutate : LifecycleStatus → LifecycleStatus)
    (may_patch : (now : Time) (t : Tamoss) (log : List Call)
      → allowed (patch_tamoss_status (with_lifecycle now mutate t)) log) where
  Preserves-once : (t : Tamoss) → Preserves (Every allowed) (lifecycle_patch_once api mutate t)
  unfolding lifecycle_patch_once
  Preserves-once t = search (preserves_rules, Preserves-Every allowed, may_patch) depth 20

  Preserves-on_conflict :
      (again : Action Call Tamoss)
      → Preserves (Every allowed) again
      → (r : Result Tamoss) → Preserves (Every allowed) (on_conflict api again r)
  unfolding on_conflict
  Preserves-on_conflict again k (ok t) = Preserves-lift _
  Preserves-on_conflict again k (err conflict) = k
  Preserves-on_conflict again k (err e) = Preserves-lift _

  Preserves-rounds :
      (n : ℕ) (t : Tamoss) → Preserves (Every allowed) (lifecycle_patch_rounds api n mutate t)
  unfolding lifecycle_patch_rounds
  Preserves-rounds zero t = Preserves-once t
  Preserves-rounds (suc n) t = Preserves-bind _ _ (Preserves-attempt _ (Preserves-once t)) (λ r.
      Preserves-on_conflict _
        (Preserves-bind _ _ (Preserves-Every allowed _ _ (λ log. may_get _ _ log))
          (Preserves-rounds n))
        r)

  pub Preserves-patch_lifecycle :
      (t : Tamoss) → Preserves (Every allowed) (patch_lifecycle api mutate t)
  unfolding patch_lifecycle
  Preserves-patch_lifecycle t = Preserves-rounds api.retries t
