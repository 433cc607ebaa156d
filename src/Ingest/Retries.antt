-- ===== src/Ingest/Retries.antt =====
-- The attempts of an ingest run: which run may be retried, and how the attempts are counted
-- (validateRetryParent in ingestrun_controller.go).
use mathlib.Core.Bool.{not}
use tamoss.Base.{ℕ, String, ◌==◌, ◌+◌, ◌<◌, ◌≤◌, ◌≡◌, subst, Bool, true, ◌⊎◌, arith, if◌then◌else◌}
use tamoss.Base.Int32.{next, at_least, half, modulus}
use tamoss.Kube.{Message}
use tamoss.Ingest.Run.{
  IngestRun, IngestRunSpec, IngestRunReference, default_ingest_run_spec, is_terminal,
}
use tamoss.Ingest.Gates.{admitted, refused, check_parent, configuration_matches, next_attempt}

-- The attempt is at least the second, and the one behind the parent's as long as that is counted.
pub record IsNextAttempt (parent n : ℕ) : Type 0 where
  pub second : at_least n 2 ≡ true
  pub successor : (n ≡ parent + 1) ⊎ ((parent ≡ 0) ⊎ (half ≤ parent + 1))

next_attempt-IsNext : (n : ℕ) → n < modulus → IsNextAttempt n (next_attempt n)
unfolding next_attempt at_least next
next_attempt-IsNext n h = record { second = ground arith; successor = ground arith }

-- A run that may be retried: it is the referenced one, has the same target and configuration, and is
-- over.
pub record IsRetry (spec : IngestRunSpec) (ref : IngestRunReference) (parent : IngestRun) (n : ℕ)
    : Type 0 where
  pub referenced : (parent.metadata.uid == ref.uid) ≡ true
  pub same_target : (parent.spec.tamoss_ref == spec.tamoss_ref) ≡ true
  pub same_configuration : configuration_matches (default_ingest_run_spec parent.spec) spec ≡ true
  pub over : is_terminal parent.status.phase ≡ true
  pub attempt : IsNextAttempt parent.status.attempt n

-- The early returns of the checks.
chain :
    (b c d e : Bool) (x y z u : String) (k l m n : Message) (i j : ℕ)
    → (if not b
        then refused x k
        else if not c
        then refused y l
        else if not d
        then refused z m
        else if not e
        then refused u n
        else admitted i)
      ≡ admitted j
    → (b ≡ true) × (c ≡ true) × (d ≡ true) × (e ≡ true) × (i ≡ j)
chain b c d e x y z u k l m n i j = ground arith

-- A run is admitted as a retry only if its parent is the referenced one with the same target and
-- configuration and is over, and then as an attempt that is at least the second, and the one behind
-- the parent's unless the parent was not counted or the counter is full.
pub check_parent-IsRetry :
    (spec : IngestRunSpec) (ref : IngestRunReference) (parent : IngestRun) (n : ℕ)
    → parent.status.attempt < modulus
    → check_parent spec ref parent ≡ admitted n
    → IsRetry spec ref parent n
unfolding check_parent
check_parent-IsRetry spec ref parent n h e =
    let (referenced, target, configuration, over, attempt) = chain _ _ _ _ _ _ _ _ _ _ _ _ _ _ e in
    record {
      referenced = referenced;
      same_target = target;
      same_configuration = configuration;
      over = over;
      attempt =
          subst (λ i. IsNextAttempt parent.status.attempt i) attempt
            (next_attempt-IsNext parent.status.attempt h);
    }
