-- ===== src/Lifecycle/Conditions.antt =====
-- What the status of an operation says about its phase (tamoss_operation_status.go).
use tamoss.Base.{
  ℕ, String, eq_iff, ◌≡◌, ◌≢◌, ◌⊎◌, ◌||◌, ◌∙◌, Bool, true, false, not, ◌&&◌, none, some, is_some,
  List, arith,
}
use tamoss.Kube.{Time, Message, Condition}
use tamoss.Resources.Lifecycle.{OperationPhase, OperationStatus, Artifact}
use tamoss.Cluster.{Api, ConditionLaws}
use tamoss.Lifecycle.Operation.{
  set_operation_status, set_condition_bool, condition_status, is_completed, is_failed, is_pending,
  artifact_is_set,
}

-- A list of conditions has one of a type with a status, a reason, a message and a generation.
pub record Shows (api : Api) (cs : List Condition) (type : String) (b : Bool) (reason : String)
    (message : Message) (generation : ℕ) : Type 0 where
  pub found : Condition
  pub there : api.find_status_condition cs type ≡ some found
  pub status : found.status ≡ condition_status b
  pub reason_of : found.reason ≡ reason
  pub message_of : found.message ≡ message
  pub generation_of : found.observed_generation ≡ generation

-- The start, the end and the artifact of a status, by those before.
pub record Stamps (s s' : OperationStatus) (now : Time) (phase : OperationPhase) (a : Artifact)
    : Type 0 where
  pub started :
      ((is_some s.started_at ≡ true) × (s'.started_at ≡ s.started_at))
      ⊎ ((s.started_at ≡ none)
          × (((is_pending phase ≡ true) × (s'.started_at ≡ none))
              ⊎ ((is_pending phase ≡ false) × (s'.started_at ≡ some now))))
  pub completed :
      ((is_some s.completed_at ≡ true) × (s'.completed_at ≡ s.completed_at))
      ⊎ ((s.completed_at ≡ none)
          × (((is_completed phase || is_failed phase) ≡ true) × (s'.completed_at ≡ some now)
              ⊎ (((is_completed phase || is_failed phase) ≡ false) × (s'.completed_at ≡ none))))
  pub artifact :
      ((artifact_is_set a ≡ true) × (s'.artifact ≡ a))
      ⊎ ((artifact_is_set a ≡ false) × (s'.artifact ≡ s.artifact))

module _ (api : Api) (laws : ConditionLaws api) where
  set-Shows :
      (cs : List Condition) (g : ℕ) (type : String) (b : Bool) (reason : String) (m : Message)
      → Shows api (set_condition_bool api cs g type b reason m) type b reason m g
  unfolding set_condition_bool
  set-Shows cs g type b reason m =
      let (f, there, s, r, t, o) = laws.find-set_self cs _ in
      record {
        found = f;
        there = there;
        status = s;
        reason_of = r;
        message_of = t;
        generation_of = o;
      }

  keep-Shows :
      (cs : List Condition) (g : ℕ) (type other : String) (b c : Bool) (reason : String)
      (m : Message)
      → type ≢ other
      → Shows api cs type c reason m g
      → Shows api (set_condition_bool api cs g other b reason m) type c reason m g
  unfolding set_condition_bool
  keep-Shows cs g type other b c reason m ne s = record {
    found = s.found;
    there = laws.find-set_ne cs _ type ne ∙ s.there;
    status = s.status;
    reason_of = s.reason_of;
    message_of = s.message_of;
    generation_of = s.generation_of;
  }

  module _ (now : Time) (g : ℕ) (phase : OperationPhase) (reason : String) (m : Message)
      (a : Artifact) (s : OperationStatus) where
    abbrev updated : OperationStatus
    updated = set_operation_status api now g phase reason m a s

    -- By the documented behaviour of the condition helpers, the status that `setOperationStatus`
    -- writes shows Ready exactly in the phase Completed, Degraded exactly in the phase Failed and
    -- Progressing exactly in the other phases, each with the reason, the message and the generation
    -- of the status.
    pub set_operation_status-Shows :
        Shows api updated.conditions "Ready" (is_completed phase) reason m g
        × Shows api updated.conditions "Progressing"
            (not (is_completed phase) && not (is_failed phase))
            reason
            m
            g
        × Shows api updated.conditions "Degraded" (is_failed phase) reason m g
    unfolding set_operation_status
    set_operation_status-Shows = (
      keep-Shows _ g _ _ _ _ reason m (λ e. ground (arith, (eq_iff "Ready" "Degraded").1 e))
          (keep-Shows _ g _ _ _ _ reason m (λ e. ground (arith, (eq_iff "Ready" "Progressing").1 e))
            (set-Shows _ g _ _ reason m)),
      keep-Shows _ g _ _ _ _ reason m (λ e. ground (arith, (eq_iff "Progressing" "Degraded").1 e))
          (set-Shows _ g _ _ reason m),
      set-Shows _ g _ _ reason m,
    )

    -- Writing a status never moves a start or an end that is set; where none was set, the start is
    -- the time of the write in every phase but Pending and stays open in Pending, and the end is the
    -- time of the write exactly in a final phase and stays open in the others; and the artifact is
    -- the given one if that says anything, and otherwise the old one.
    pub set_operation_status-history : Stamps s updated now phase a
    unfolding set_operation_status
    set_operation_status-history = record {
      started = ground arith;
      completed = ground arith;
      artifact = ground arith;
    }
