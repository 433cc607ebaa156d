-- ===== src/Lifecycle.antt =====
-- operator/internal/controller/tamoss_lifecycle_operations.go: references to operations, and the
-- patch of an instance's lifecycle status under optimistic locking.
pub mod Operation
pub mod Preserved
pub mod Conditions
pub mod Rounds
use tamoss.Base.{
  ℕ, zero, suc, String, ◌==◌, Bool, true, false, not, ◌&&◌, ◌||◌, Option, none, some, decided,
  if◌then◌else◌,
}
use tamoss.Kube.{Time, Error, conflict, Message, ObjectMeta, ObjectReference}
use tamoss.Effect.{Result, ok, err, Action, return, throw, lift, attempt, ◌>>=◌, ◌>>◌}
use tamoss.Resources.{Tamoss}
use tamoss.Resources.Lifecycle.{
  LifecyclePhase, LifecyclePhase-discrete, LifecycleStatus, LifecycleStatus-discrete,
}
use tamoss.Cluster.{Api, Call, send_tamoss_status, get_tamoss, write, current_time}

abbrev pub scheme_group_version : String
scheme_group_version = "tamoss.livewyer.io/v1alpha1"

-- `operationObjectReference`.
unfoldable pub operation_object_reference : ObjectMeta → String → ObjectReference
operation_object_reference obj kind = record {
  api_version = scheme_group_version;
  kind = kind;
  namespace = obj.namespace;
  name = obj.name;
  uid = obj.uid;
}

-- `operationRefMatches`.
unfoldable pub operation_ref_matches : Option ObjectReference → ObjectMeta → String → Bool
operation_ref_matches none obj kind = false
operation_ref_matches (some ref) obj kind =
    if not (ref.kind == kind) || not (ref.namespace == obj.namespace) || not (ref.name == obj.name)
    then false
    else ref.uid == "" || obj.uid == "" || ref.uid == obj.uid

-- `setLifecycleOperationState`.
unfoldable pub set_lifecycle_operation_state :
    LifecyclePhase → String → Message → Option ObjectReference → LifecycleStatus → LifecycleStatus
set_lifecycle_operation_state phase reason message active l = record l {
  phase = phase;
  reason = reason;
  message = message;
  active_operation_ref = active;
}

-- The transition time that `patchTamossLifecycleStatus` stamps where the phase changes.
unfoldable pub stamp_transition : Time → LifecycleStatus → LifecycleStatus → LifecycleStatus
stamp_transition now old new =
    if decided (LifecyclePhase-discrete new.phase old.phase)
    then new
    else record new { last_transition_time = some now }

-- The instance with its lifecycle status mutated.
unfoldable pub with_lifecycle : Time → (LifecycleStatus → LifecycleStatus) → Tamoss → Tamoss
unfolding stamp_transition
with_lifecycle now mutate t = record t {
  status = record (t.status) {
    lifecycle = stamp_transition now t.status.lifecycle (mutate t.status.lifecycle);
  };
}

module _ (api : Api) where
  -- One round of `patchTamossLifecycleStatus`. Only the lifecycle has changed, so the statuses are
  -- equal when the lifecycles are; then nothing is sent.
  unfoldable pub lifecycle_patch_once :
      (LifecycleStatus → LifecycleStatus) → Tamoss → Action Call Tamoss
  unfolding with_lifecycle
  lifecycle_patch_once mutate t = do
    now ← current_time api
    let updated = with_lifecycle now mutate t
    if decided (LifecycleStatus-discrete t.status.lifecycle updated.status.lifecycle)
        then return updated
        else send_tamoss_status api updated

  -- A conflict is met by another round, any other answer ends `retry.RetryOnConflict`.
  unfoldable pub on_conflict : Action Call Tamoss → Result Tamoss → Action Call Tamoss
  on_conflict again (err conflict) = again
  on_conflict again r = lift r

  -- The rounds of `patchTamossLifecycleStatus`. Each but the first reads the instance again, and
  -- the last one's answer stands.
  unfoldable pub lifecycle_patch_rounds :
      ℕ → (LifecycleStatus → LifecycleStatus) → Tamoss → Action Call Tamoss
  lifecycle_patch_rounds zero mutate t = lifecycle_patch_once mutate t
  lifecycle_patch_rounds (suc n) mutate t =
      attempt (lifecycle_patch_once mutate t)
      >>= on_conflict (
          get_tamoss api t.metadata.namespace t.metadata.name >>= λ latest.
          lifecycle_patch_rounds n mutate latest)

  -- `patchTamossLifecycleStatus`: the instance as it was patched.
  unfoldable pub patch_lifecycle : (LifecycleStatus → LifecycleStatus) → Tamoss → Action Call Tamoss
  unfolding lifecycle_patch_rounds
  patch_lifecycle mutate t = lifecycle_patch_rounds api.retries mutate t
