-- ===== src/Ingest/GatesGuarded.antt =====
-- The calls of the checks that the admission of an ingest run rests on are allowed ones.
use tamoss.Base.{
  ℕ, String, ◌≡◌, refl, Bool, true, false, ◌⊎◌, inl, inr, Option, none, some, List, [], ◌∷◌, arith,
  decided, if◌then◌else◌,
}
use tamoss.Kube.{Message, already_exists}
use tamoss.Effect.{Result, ok, err, Action, return}
use tamoss.Effect.Preserves.{
  Preserves-Every, Preserves-return, Preserves-throw, Preserves-bind, preserves_rules,
}
use tamoss.Effect.Yields.{Yields, Yields-return, Yields-imply, Yields-bind, Yields-any}
use tamoss.Config.{Config}
use tamoss.Resources.{Tamoss}
use tamoss.Ingest.Run.{
  IngestRun, IngestRunSpec, IngestRunPhase, IngestRunReference, FlowAssignment, ResolvedFlowProfile,
  ResolvedFlowProfile-discrete, is_terminal,
}
use tamoss.Ingest.Inputs.{ResolvedIngestInputs}
use tamoss.Ingest.Job.{Job}
use tamoss.Ingest.Api.{IngestApi, IngestCall}
use tamoss.Ingest.Gates.{
  Gate, admitted, refused, validate_retry_parent, resolve_storage_backend, resolve_assignment,
  resolve_next, resolve_flow_profiles,
}
use tamoss.Ingest.Admit.{persist_profiles, job_created, refuse_recorded}
use tamoss.Ingest.Status.{set_phase, set_static_phase}
use tamoss.Ingest.Track.{pending}
use tamoss.Ingest.Discipline.{
  MayShow, MayCall, Keeps, Keeps-set_job_phase_with_stream, Keeps-set_phase, Keeps-set_static_phase,
}

module _ (api : IngestApi) (cfg : Config) (run : IngestRun) where
  pub Keeps-retry_parent :
      (spec : IngestRunSpec) (ref : Option IngestRunReference)
      → Keeps api cfg run (validate_retry_parent api run spec ref)
  unfolding MayCall validate_retry_parent
  Keeps-retry_parent spec none = Preserves-return _
  Keeps-retry_parent spec (some ref) =
      search (preserves_rules, Preserves-Every (MayCall api cfg run)) depth 20

  pub Keeps-storage_backend :
      (spec : IngestRunSpec) (ref : Option String)
      → Keeps api cfg run (resolve_storage_backend api run spec ref)
  unfolding MayCall resolve_storage_backend
  Keeps-storage_backend spec none = Preserves-return _
  Keeps-storage_backend spec (some name) =
      search (preserves_rules, Preserves-Every (MayCall api cfg run)) depth 20

  pub Keeps-assignment :
      (spec : IngestRunSpec) (a : FlowAssignment) (ref : Option String)
      → Keeps api cfg run (resolve_assignment api run spec a ref)
  unfolding MayCall resolve_assignment
  Keeps-assignment spec a none = Preserves-return _
  Keeps-assignment spec a (some name) =
      search (preserves_rules, Preserves-Every (MayCall api cfg run)) depth 20

  pub Keeps-next :
      (gate : Gate ResolvedFlowProfile) (rest : Action IngestCall (Gate (List ResolvedFlowProfile)))
      → Keeps api cfg run rest
      → Keeps api cfg run (resolve_next api gate rest)
  unfolding resolve_next
  Keeps-next (refused reason message) rest k = Preserves-return _
  Keeps-next (admitted p) rest k = search (preserves_rules, k) depth 20

  pub Keeps-flow_profiles :
      (spec : IngestRunSpec) (assignments : List FlowAssignment)
      → Keeps api cfg run (resolve_flow_profiles api run spec assignments)
  unfolding resolve_flow_profiles
  Keeps-flow_profiles spec [] = Preserves-return _
  Keeps-flow_profiles spec (a ∷ rest) =
      Preserves-bind _ _ (Keeps-assignment spec a _)
        (λ gate. Keeps-next gate _ (Keeps-flow_profiles spec rest))

  pub Keeps-persist :
      (ps : List ResolvedFlowProfile)
      → MayShow api cfg run run.status.phase
      → Keeps api cfg run (persist_profiles api run ps)
  unfolding MayCall persist_profiles
  Keeps-persist ps shown =
      search (preserves_rules, Preserves-Every (MayCall api cfg run), shown) depth 20

  pub Keeps-created :
      (resolved : ResolvedIngestInputs) (n : ℕ) (r : Result Job)
      → Keeps api cfg run (job_created api run resolved n r)
  unfolding MayShow job_created
  Keeps-created resolved n (ok job) =
      search (Keeps-set_job_phase_with_stream api cfg run (some job)) depth 10
  Keeps-created resolved n (err already_exists) = Preserves-return _
  Keeps-created resolved n (err e) = Preserves-throw e

  pub MayShow-active : (p : IngestRunPhase) → is_terminal p ≡ false → MayShow api cfg run p
  unfolding MayShow is_terminal
  MayShow-active IngestRunPhase.unset e = tt
  MayShow-active IngestRunPhase.pending e = tt
  MayShow-active IngestRunPhase.queued e = tt
  MayShow-active IngestRunPhase.running e = tt
  MayShow-active IngestRunPhase.failed e = tt
  MayShow-active IngestRunPhase.succeeded e = ground arith
  MayShow-active IngestRunPhase.partially_succeeded e = ground arith
  MayShow-active IngestRunPhase.cancelled e = ground arith

  pub Keeps-wait :
      (reason : String) (message : Message)
      → Keeps api cfg run (set_phase api run (pending reason message))
  unfolding MayShow
  Keeps-wait reason message = Keeps-set_phase api cfg run (pending reason message) tt

  pub Keeps-wait_static :
      (reason : String) (message : Message)
      → Keeps api cfg run (set_static_phase api run (pending reason message))
  unfolding MayShow
  Keeps-wait_static reason message = Keeps-set_static_phase api cfg run (pending reason message) tt

  pub Keeps-refused :
      (t : Tamoss) (n : ℕ) (storage_id reason : String) (message : Message) (changed : Bool)
      → Keeps api cfg run (refuse_recorded api run t n storage_id reason message changed)
  Keeps-refused t n storage_id reason message true = Preserves-return _
  Keeps-refused t n storage_id reason message false = Keeps-wait _ _

  -- Unless the status has changed, the profiles were recorded.
  abbrev pub IsRecorded : List ResolvedFlowProfile → Bool → Type 0
  IsRecorded ps changed =
      (changed ≡ true)
      ⊎ (decided (ResolvedFlowProfile-discrete run.status.resolved_tams_flow_profiles ps) ≡ true)

  Yields-IsRecorded :
      (ps : List ResolvedFlowProfile) (b : Bool) (m : Action IngestCall Bool)
      → decided (ResolvedFlowProfile-discrete run.status.resolved_tams_flow_profiles ps) ≡ b
      → Yields (λ changed. changed ≡ true) m
      → Yields (IsRecorded ps) (if b then return false else m)
  Yields-IsRecorded ps true m e y = Yields-return false (inr e)
  Yields-IsRecorded ps false m e y = Yields-imply m y (λ changed h. inl h)

  pub Yields-persist :
      (ps : List ResolvedFlowProfile) → Yields (IsRecorded ps) (persist_profiles api run ps)
  unfolding persist_profiles
  Yields-persist ps =
      Yields-IsRecorded ps _ _ refl
        (Yields-bind {R = λ x. Unit} _ _ (Yields-any _) (λ x h. Yields-return true refl))
