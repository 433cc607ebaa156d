-- ===== src/Retention/Guarded.antt =====
-- When the objects of an artifact may be deleted, and that a reconcile deletes them at no other
-- time.
use tamoss.Base.{
  ℕ, String, ◌≡◌, ◌≤◌, ◌<◌, ◌+◌, ◌⊎◌, refl, sym, subst, Bool, true, false, Option, none, some, List,
  arith, if◌then◌else◌, nat_eq,
}
use tamoss.Kube.{Time, Message}
use tamoss.Effect.{Result, ok, err, Action, return, call, ◌>>=◌}
use tamoss.Effect.Preserves.{
  Preserves, Ends, Ends-Preserves, Ends-observe, Every, Every-cons, Preserves-Every,
  Preserves-return, Preserves-if, preserves_rules,
}
use tamoss.Resources.{Tamoss}
use tamoss.Resources.Storage.{StorageBackend, StorageBackendSpec, RetentionMode}
use tamoss.Resources.Lifecycle.{ArtifactRetention, CleanupStatus, LifecycleStatus}
use tamoss.Cluster.{
  Api, Call, delete_prefix, delete_cluster, delete_backup, delete_hibernate, patch_tamoss_status,
  event, get,
}
use tamoss.Lifecycle.{patch_lifecycle}
use tamoss.Lifecycle.Preserved.{Preserves-patch_lifecycle}
use tamoss.Hibernate.Prefix.{hibernation_artifact_root_prefix}
use tamoss.Resume.Bootstrap.{record_warning, cleanup_terminal}
use tamoss.Kube.{error_text}
use tamoss.Cleanup.{blocked}
use tamoss.Retention.{
  record_cleanup, settle_cleanup, artifact_deleted, delete_artifact_prefix, delete_resume_artifact,
  is_early, ttl_duration, due_nanoseconds, retain_until, retain_at, schedule_cleanup,
  apply_retention, retain_on, record_resumed, restored_database_ready, retain_consumed,
  reconcile_artifact_retention,
}

-- A TTL whose nanoseconds fit into an `int64` has passed once it is not early any more.
is_early-passed :
    (now resumed_at ttl : ℕ)
    → is_early now resumed_at (ttl_duration ttl) ≡ false
    → (9223372036 < ttl) ⊎ (resumed_at + ttl ≤ now)
unfolding is_early ttl_duration
is_early-passed now resumed_at ttl e = ground arith

module _ (api : Api) (a : ArtifactRetention) where
  -- The retention mode of the backend allows the deletion behind a log, of an artifact that was
  -- resumed from at a time.
  unfoldable pub IsDue : StorageBackendSpec → RetentionMode → Time → List Call → Type 0
  IsDue spec RetentionMode.delete_after_resume resumed_at log = Unit
  IsDue spec RetentionMode.ttl resumed_at log =
      (0 < spec.ttl_seconds_after_resume)
      × (is_early (api.now log) resumed_at (ttl_duration spec.ttl_seconds_after_resume) ≡ false)
      × ((9223372036 < spec.ttl_seconds_after_resume)
          ⊎ (resumed_at + spec.ttl_seconds_after_resume ≤ api.now log))
  IsDue spec mode resumed_at log = ⊥

  unfoldable pub MayDelete : StorageBackendSpec → String → Option Time → List Call → Type 0
  unfolding IsDue
  MayDelete spec prefix none log = ⊥
  MayDelete spec prefix (some resumed_at) log =
      (hibernation_artifact_root_prefix a.manifest_key ≡ ok prefix)
      × (cleanup_terminal a.cleanup.phase ≡ false)
      × IsDue spec spec.retention_mode resumed_at log

  unfoldable pub MayCall : Call → List Call → Type 0
  unfolding MayDelete
  MayCall (delete_prefix spec prefix) log = MayDelete spec prefix a.resumed_at log
  MayCall (delete_cluster c) log = ⊥
  MayCall (delete_backup b) log = ⊥
  MayCall (delete_hibernate h) log = ⊥
  MayCall c log = Unit

  abbrev Keeps : {A : Type 0} → Action Call A → Type 0
  Keeps m = Preserves (Every MayCall) m

  Keeps-patch :
      (mutate : LifecycleStatus → LifecycleStatus) (t : Tamoss)
      → Keeps (patch_lifecycle api mutate t)
  unfolding MayCall
  Keeps-patch mutate = Preserves-patch_lifecycle api MayCall (λ _ _ _. tt) mutate (λ _ _ _. tt)

  Keeps-warning : (t : Tamoss) (r : String) (m : Message) → Keeps (record_warning api t r m)
  unfolding record_warning MayCall Every ◌>>=◌
  Keeps-warning t r m = record {
    holds = λ log k. (Preserves-if' (api.is_due log t.metadata.name r m) log k);
  }
    where
      Preserves-if' :
          (b : Bool) (log : List Call)
          → Every MayCall log
          → Every MayCall (
              (if b
                then call (event tamoss.Cluster.warning t.metadata.name r m) (λ _. ok tt) log
                else return tt log).1)
      Preserves-if' true log k = (tt, k)
      Preserves-if' false log k = k

  Keeps-record_cleanup :
      (t : Tamoss) (b : ArtifactRetention) (c : CleanupStatus) → Keeps (record_cleanup api t b c)
  unfolding record_cleanup
  Keeps-record_cleanup t b c = search (preserves_rules, Keeps-patch, Keeps-warning) depth 20

  Keeps-settle :
      (t : Tamoss) (b : ArtifactRetention) (c : CleanupStatus) → Keeps (settle_cleanup api t b c)
  unfolding settle_cleanup
  Keeps-settle t b c = search (preserves_rules, Keeps-record_cleanup) depth 20

  Keeps-deleted :
      (t : Tamoss) (b : ArtifactRetention) (p : String) (r : Result ℕ)
      → Keeps (artifact_deleted api t b p r)
  unfolding MayCall artifact_deleted
  Keeps-deleted t b p (ok n) =
      search (preserves_rules, Preserves-Every MayCall, Keeps-record_cleanup) depth 20
  Keeps-deleted t b p (err e) = search (preserves_rules, Keeps-record_cleanup) depth 20

  -- The deletion at one log, where it is due.
  call-Ends :
      (t : Tamoss) (spec : StorageBackendSpec) (prefix : String) (log : List Call)
      → Every MayCall log
      → MayDelete spec prefix a.resumed_at log
      → Ends (Every MayCall) (delete_artifact_prefix api t spec a (ok prefix)) log
  unfolding MayCall delete_artifact_prefix ◌>>=◌
  call-Ends t spec prefix log k may = record {
    holds = (Keeps-deleted t a prefix _).holds _ (Every-cons MayCall _ log may k);
  }

  delete-Ends :
      (t : Tamoss) (spec : StorageBackendSpec) (r : Result String) (log : List Call)
      → Every MayCall log
      → ((prefix : String) → r ≡ ok prefix → MayDelete spec prefix a.resumed_at log)
      → Ends (Every MayCall) (delete_artifact_prefix api t spec a r) log
  unfolding delete_artifact_prefix
  delete-Ends t spec (err e) log k due =
      Ends-Preserves _ log (Keeps-settle t a (blocked (error_text e))) k
  delete-Ends t spec (ok prefix) log k due = call-Ends t spec prefix log k (due prefix refl)

  module _ (resumed_at : Time) (resumed : a.resumed_at ≡ some resumed_at)
      (open_phase : cleanup_terminal a.cleanup.phase ≡ false) where
    due-MayDelete :
        (spec : StorageBackendSpec) (prefix : String) (log : List Call)
        → hibernation_artifact_root_prefix a.manifest_key ≡ ok prefix
        → IsDue spec spec.retention_mode resumed_at log
        → MayDelete spec prefix a.resumed_at log
    unfolding MayDelete
    due-MayDelete spec prefix log root due =
        subst (λ at. MayDelete spec prefix at log) (sym resumed) (root, open_phase, due)

    artifact-Ends :
        (t : Tamoss) (spec : StorageBackendSpec) (log : List Call)
        → Every MayCall log
        → IsDue spec spec.retention_mode resumed_at log
        → Ends (Every MayCall) (delete_resume_artifact api t spec a) log
    unfolding delete_resume_artifact
    artifact-Ends t spec log k due =
        delete-Ends t spec _ log k (λ prefix root. due-MayDelete spec prefix log root due)

    Keeps-scheduled : (t : Tamoss) (due : ℕ) (now : Time) → Keeps (schedule_cleanup api t a due now)
    unfolding schedule_cleanup
    Keeps-scheduled t due now = search (preserves_rules, Keeps-record_cleanup) depth 20

    until-Ends :
        (t : Tamoss) (spec : StorageBackendSpec) (log : List Call) (early : Bool)
        → is_early (api.now log) resumed_at (ttl_duration spec.ttl_seconds_after_resume) ≡ early
        → spec.retention_mode ≡ RetentionMode.ttl
        → nat_eq spec.ttl_seconds_after_resume 0 ≡ false
        → Every MayCall log
        → Ends
            (Every MayCall)
            (if early
              then schedule_cleanup api t a
                  (due_nanoseconds resumed_at (ttl_duration spec.ttl_seconds_after_resume))
                  (api.now log)
              else delete_resume_artifact api t spec a)
            log
    unfolding IsDue
    until-Ends t spec log true e mode positive k = Ends-Preserves _ log (Keeps-scheduled t _ _) k
    until-Ends t spec log false e mode positive k = artifact-Ends t spec log k (
        subst (λ m. IsDue spec m resumed_at log) (sym mode)
          (ground arith, e, is_early-passed _ resumed_at spec.ttl_seconds_after_resume e))

    Keeps-until :
        (t : Tamoss) (spec : StorageBackendSpec)
        → spec.retention_mode ≡ RetentionMode.ttl
        → Keeps (retain_until api t spec a resumed_at)
    unfolding retain_until retain_at
    Keeps-until t spec mode =
        Preserves-if (nat_eq spec.ttl_seconds_after_resume 0) _ _ (λ _. search Keeps-settle)
          (λ positive. record {
            holds = λ log k.
                (Ends-observe _ _ log (until-Ends t spec log _ refl mode positive k)).holds;
          })

    Keeps-apply :
        (t : Tamoss) (spec : StorageBackendSpec) (mode : RetentionMode)
        → spec.retention_mode ≡ mode
        → Keeps (apply_retention api mode t spec a resumed_at)
    unfolding apply_retention IsDue
    Keeps-apply t spec RetentionMode.unset e = search Keeps-settle
    Keeps-apply t spec RetentionMode.retain e = search Keeps-settle
    Keeps-apply t spec (RetentionMode.unsupported m) e = search Keeps-settle
    Keeps-apply t spec RetentionMode.ttl e = Keeps-until t spec e
    Keeps-apply t spec RetentionMode.delete_after_resume e = record {
      holds = λ log k.
          (artifact-Ends t spec log k (subst (λ m. IsDue spec m resumed_at log) (sym e) tt)).holds;
    }

    Keeps-retain_on :
        (t : Tamoss) (b : Option StorageBackend) → Keeps (retain_on api t a resumed_at b)
    unfolding retain_on
    Keeps-retain_on t none = search Keeps-settle
    Keeps-retain_on t (some b) =
        search (preserves_rules, Keeps-settle, Keeps-apply t _ _ refl) depth 20

  Keeps-ready : (t : Tamoss) → Keeps (restored_database_ready api t)
  unfolding MayCall restored_database_ready
  Keeps-ready t = search (preserves_rules, Preserves-Every MayCall) depth 20

  Keeps-record_resumed : (t : Tamoss) (ready : Bool) → Keeps (record_resumed api t a ready)
  unfolding MayCall record_resumed
  Keeps-record_resumed t ready =
      search (preserves_rules, Preserves-Every MayCall, Keeps-patch) depth 20

  Keeps-consumed :
      (t : Tamoss) (at : Option Time)
      → a.resumed_at ≡ at
      → cleanup_terminal a.cleanup.phase ≡ false
      → Keeps (retain_consumed api t a at)
  unfolding MayCall retain_consumed
  Keeps-consumed t none e open_phase =
      search (preserves_rules, Keeps-ready, Keeps-record_resumed) depth 20
  Keeps-consumed t (some at) e open_phase =
      search (preserves_rules, Preserves-Every MayCall, Keeps-retain_on at e open_phase) depth 20

  -- A reconcile of an artifact's retention, whatever the API server and the object store answer,
  -- deletes objects only if its cleanup is not over, only behind the recorded end of the restore,
  -- only below the folder of the artifact's manifest, and only if the backend's mode is
  -- DeleteAfterResume, or TTL with a positive TTL of which the duration, as the code computes it in
  -- 64 bits, has passed since then: the TTL itself, if it is at most 9223372036 seconds; and it
  -- deletes no cluster, backup or hibernation.
  pub reconcile_artifact_retention-Every :
      (t : Tamoss) (log : List Call)
      → Every MayCall log
      → Every MayCall (reconcile_artifact_retention api t a log).1
  unfolding reconcile_artifact_retention
  reconcile_artifact_retention-Every t log k =
      (Preserves-if (cleanup_terminal a.cleanup.phase) _ _ (λ _. Preserves-return _)
          (Keeps-consumed t a.resumed_at refl)).holds
        log k
