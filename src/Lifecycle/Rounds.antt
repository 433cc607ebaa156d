-- ===== src/Lifecycle/Rounds.antt =====
-- The rounds of patchTamossLifecycleStatus (tamoss_lifecycle_operations.go): what each of them patches,
-- and when there is another one.
use tamoss.Base.{ℕ, String, ◌≡◌, false, ◌⊎◌, List, ◌∷◌, decided}
use tamoss.Kube.{Time, conflict}
use tamoss.Effect.{ok, err}
use tamoss.Effect.Preserves.{Every}
use tamoss.Resources.{Tamoss}
use tamoss.Resources.Lifecycle.{LifecycleStatus, LifecycleStatus-discrete}
use tamoss.Cluster.{Api, Call, get, patch_tamoss_status}
use tamoss.Lifecycle.{with_lifecycle, lifecycle_patch_rounds}

module _ (api : Api) (mutate : LifecycleStatus → LifecycleStatus) (t : Tamoss)
    (start : List Call) where
  -- The instance is the given one, before any call, or the one that the last call has read.
  unfoldable pub IsLatest : Tamoss → List Call → Type 0
  IsLatest v log =
      ((v ≡ t) × (log ≡ start))
      ⊎ ((ns : String) × (name : String) × (before : List Call) × (log
            ≡ get "Tamoss" ns name ∷ before)
          × (api.tamoss_at before ns name ≡ ok v))

  -- The mutation of the latest instance, at some time, that changes its lifecycle.
  unfoldable pub IsUpdate : Tamoss → List Call → Type 0
  IsUpdate u log =
      (v : Tamoss) × (now : Time) × IsLatest v log
      × (u ≡ with_lifecycle now mutate v)
      × (decided (LifecycleStatus-discrete v.status.lifecycle u.status.lifecycle) ≡ false)

  -- The last call is a patch, and it met a conflict.
  unfoldable pub IsConflict : List Call → Type 0
  IsConflict log =
      (u : Tamoss) × (before : List Call) × (log ≡ patch_tamoss_status u ∷ before)
      × (api.patched_tamoss before u ≡ err conflict)

  unfoldable pub MayCall : Call → List Call → Type 0
  MayCall (patch_tamoss_status u) log = IsUpdate u log
  MayCall (get kind ns name) log = IsConflict log
  MayCall c log = ⊥

  -- The rounds that are left keep to it from any log with the latest instance.
  abbrev RoundsKeep : ℕ → Type 0
  RoundsKeep n =
      (v : Tamoss) (log : List Call)
      → IsLatest v log
      → Every MayCall log
      → Every MayCall (lifecycle_patch_rounds api n mutate v log).1
