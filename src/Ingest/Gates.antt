-- ===== src/Ingest/Gates.antt =====
-- The gates before the Job of an ingest run that read the cluster (ingestrun_controller.go): the
-- retried run, the storage backend, the Flow Profiles, and the readiness of the instance.
use mathlib.Core.Bool.{not}
use tamoss.Base.{
  ℕ, String, ◌==◌, Bool, true, false, ◌&&◌, ◌||◌, Option, none, some, List, [], ◌∷◌, decided,
  is_none, nat_eq, if◌then◌else◌,
}
use tamoss.Base.Int32.{next, at_least}
use tamoss.Base.Sorting.{sort, text_less}
use tamoss.Kube.{Message, literal, sprintf, Condition}
use tamoss.Effect.{Action, return, lift, attempt, or_absent, ◌>>=◌}
use tamoss.Config.{Config, defaults_applied_to}
use tamoss.Resources.{Tamoss}
use tamoss.Resources.Storage.{StorageBackend, apply_defaults, usage_media}
use tamoss.Ingest.Run.{
  IngestRun, IngestRunSpec, IngestRunSpec-discrete, IngestRunReference, FlowAssignment,
  FlowMetadata, ResolvedFlowProfile, default_ingest_run_spec, is_terminal,
}
use tamoss.Ingest.Phase.{is_true_status}
use tamoss.Ingest.Api.{IngestApi, IngestCall, FlowProfile, get_run, get_backend, get_flow_profile}

-- A value, or the reason and the message for which the run has to wait.
pub data Gate {ℓ} (A : Type ℓ) : Type ℓ where
  admitted : A → Gate A
  refused : String → Message → Gate A

-- A condition that is there and true.
abbrev pub is_true_condition : Option Condition → Bool
is_true_condition none = false
is_true_condition (some c) = is_true_status c.status

abbrev key_less : String × String → String × String → Bool
key_less (k, v) (l, w) = text_less k l

-- The tags are a map: in the order of their keys, two lists are equal exactly if the maps are. (An
-- absent map and an empty one are the same list here.)
abbrev by_keys : Option FlowMetadata → Option FlowMetadata
by_keys none = none
by_keys (some m) = some (record m { tags = sort key_less m.tags })

-- What `ingestRetryConfigurationMatches` compares of a specification.
abbrev configuration : IngestRunSpec → IngestRunSpec
configuration spec = record spec {
  desired_state = "";
  retry_of = none;
  output = by_keys spec.output;
}

-- `ingestRetryConfigurationMatches`.
unfoldable pub configuration_matches : IngestRunSpec → IngestRunSpec → Bool
unfolding sort
configuration_matches parent retry =
    decided (IngestRunSpec-discrete (configuration parent) (configuration retry))

-- The attempt behind a parent's, at least the second.
unfoldable pub next_attempt : ℕ → ℕ
unfolding next at_least
next_attempt n = if at_least (next n) 2 then next n else 2

-- The part of `validateRetryParent` behind the read of the parent.
unfoldable pub check_parent : IngestRunSpec → IngestRunReference → IngestRun → Gate ℕ
unfolding configuration_matches next_attempt default_ingest_run_spec is_terminal
check_parent spec ref parent =
    if not (parent.metadata.uid == ref.uid)
    then refused "RetryParentReplaced"
        (literal "The retry parent UID does not match the referenced IngestRun")
    else if not (parent.spec.tamoss_ref == spec.tamoss_ref)
    then refused "RetryParentTargetMismatch"
        (literal "The retry parent belongs to a different Tamoss instance")
    else if not (configuration_matches (default_ingest_run_spec parent.spec) spec)
    then refused "RetryParentConfigurationMismatch" (
        literal
          "A retry must preserve the parent's input, profile, size class, options, and output intent")
    else if not (is_terminal parent.status.phase)
    then refused "RetryParentNotComplete"
        (literal "The retry parent has not reached a terminal phase")
    else admitted (next_attempt parent.status.attempt)

unfoldable pub found_parent :
    IngestRun → IngestRunSpec → IngestRunReference → Option IngestRun → Gate ℕ
unfolding check_parent
found_parent run spec ref none =
    refused "RetryParentNotFound"
      (sprintf "Retry parent %s/%s does not exist" (run.metadata.namespace ∷ ref.name ∷ []))
found_parent run spec ref (some parent) = check_parent spec ref parent

-- `flowProfileAssignmentFormat`.
unfoldable pub flow_profile_assignment_format : String → String
flow_profile_assignment_format format =
    if format == "urn:x-nmos:format:video"
    then "video"
    else if format == "urn:x-nmos:format:audio"
    then "audio"
    else if format == "urn:x-tam:format:image"
    then "image"
    else if format == "urn:x-nmos:format:data"
    then "data"
    else ""

abbrev resolved_profile : FlowAssignment → String → String → ResolvedFlowProfile
resolved_profile a profile_id profile_ref = record {
  format = a.format;
  index = a.index;
  profile_id = profile_id;
  profile_ref = profile_ref;
}

abbrev prepend :
    ResolvedFlowProfile → Gate (List ResolvedFlowProfile) → Gate (List ResolvedFlowProfile)
prepend p (admitted ps) = admitted (p ∷ ps)
prepend p (refused reason message) = refused reason message

module _ (api : IngestApi) where
  -- `tamossReadyForIngest`.
  unfoldable pub ready_for_ingest : Config → Tamoss → Bool
  unfolding defaults_applied_to
  ready_for_ingest cfg t =
      defaults_applied_to cfg t
      && not (t.spec.version == "")
      && t.status.current_version == t.spec.version
      && is_true_condition (api.find_status_condition t.status.conditions "Ready")
      && nat_eq t.status.observed_generation t.metadata.generation
      && elim t.spec.api_enabled [ none ↦ true | some b ↦ b ]

  -- `flowProfileReady`.
  unfoldable pub flow_profile_ready : FlowProfile → Bool
  flow_profile_ready p =
      nat_eq p.observed_generation p.metadata.generation
      && is_true_condition (api.find_status_condition p.conditions "Ready")

  -- `validateRetryParent`.
  unfoldable pub validate_retry_parent :
      IngestRun → IngestRunSpec → Option IngestRunReference → Action IngestCall (Gate ℕ)
  unfolding found_parent
  validate_retry_parent run spec none = return (admitted 1)
  validate_retry_parent run spec (some ref) =
      if ref.name == run.metadata.name
      then return (refused "RetryParentInvalid" (literal "An IngestRun cannot retry itself"))
      else (do
        read ← attempt (get_run api run.metadata.namespace ref.name)
        parent ← lift (or_absent read)
        return (found_parent run spec ref parent))

  abbrev ready_condition : StorageBackend → Bool
  ready_condition b = elim (api.find_status_condition b.conditions "Ready") [
    | none ↦ false
    | some c ↦ is_true_status c.status && nat_eq c.observed_generation b.metadata.generation
  ]

  -- The part of `resolveIngestStorageBackend` behind the read of the backend.
  unfoldable pub check_storage_backend : IngestRunSpec → StorageBackend → Gate String
  unfolding apply_defaults
  check_storage_backend spec b =
      let s = apply_defaults api.deterministic_id b.metadata.namespace b.metadata.name b.spec in
      if not (b.tamoss_ref == spec.tamoss_ref)
      then refused "IngestStorageBackendTargetMismatch"
          (literal "The selected StorageBackend belongs to a different Tamoss instance")
      else if not (is_none b.metadata.deletion_timestamp)
      then refused "IngestStorageBackendNotReady"
          (literal "The selected StorageBackend is being deleted")
      else if not (s.usage == usage_media)
      then refused "IngestStorageBackendUsageInvalid"
          (literal "The selected StorageBackend is not a media destination")
      else if not (nat_eq b.observed_generation b.metadata.generation) || not (ready_condition b)
      then refused "IngestStorageBackendNotReady"
          (literal "The selected StorageBackend has not reached Ready for its current generation")
      else if not (b.resolved_backend_id == s.id) || not (b.backend_id == s.id)
      then refused "IngestStorageBackendIdentityPending" (
          literal
            "The selected StorageBackend has not published its approved TAMS backend identity")
      else admitted s.id

  unfoldable pub found_storage_backend :
      IngestRun → IngestRunSpec → String → Option StorageBackend → Gate String
  unfolding check_storage_backend
  found_storage_backend run spec name none =
      refused "IngestStorageBackendNotFound"
        (sprintf "StorageBackend %s/%s does not exist" (run.metadata.namespace ∷ name ∷ []))
  found_storage_backend run spec name (some b) = check_storage_backend spec b

  -- `resolveIngestStorageBackend`.
  unfoldable pub resolve_storage_backend :
      IngestRun → IngestRunSpec → Option String → Action IngestCall (Gate String)
  unfolding found_storage_backend
  resolve_storage_backend run spec none = return (admitted "")
  resolve_storage_backend run spec (some name) = if name == "" then return (admitted "") else (do
    read ← attempt (get_backend api run.metadata.namespace name)
    backend ← lift (or_absent read)
    return (found_storage_backend run spec name backend))

  -- The body of the loop in `resolveIngestFlowProfiles`, behind the read of the profile.
  unfoldable pub check_flow_profile :
      IngestRun
      → IngestRunSpec
      → FlowAssignment
      → String
      → Option FlowProfile
      → Gate ResolvedFlowProfile
  unfolding flow_profile_ready flow_profile_assignment_format
  check_flow_profile run spec a name none =
      refused "IngestFlowProfileNotFound"
        (sprintf "FlowProfile %s/%s does not exist" (run.metadata.namespace ∷ name ∷ []))
  check_flow_profile run spec a name (some p) =
      if not (p.tamoss_ref == spec.tamoss_ref)
      then refused "IngestFlowProfileTargetMismatch"
          (literal "The selected FlowProfile belongs to a different Tamoss instance")
      else if not (is_none p.metadata.deletion_timestamp)
          || not (flow_profile_ready p)
          || p.profile_id == ""
      then refused "IngestFlowProfileNotReady"
          (sprintf "FlowProfile %s/%s has not reached Ready" (run.metadata.namespace ∷ name ∷ []))
      else if not (flow_profile_assignment_format p.resolved_format == a.format)
      then refused "IngestFlowProfileFormatMismatch"
          (literal "The selected FlowProfile format does not match the requested essence stream")
      else admitted (resolved_profile a p.profile_id name)

  -- One round of the loop in `resolveIngestFlowProfiles`.
  unfoldable pub resolve_assignment :
      IngestRun
      → IngestRunSpec
      → FlowAssignment
      → Option String
      → Action IngestCall (Gate ResolvedFlowProfile)
  unfolding check_flow_profile
  resolve_assignment run spec a none = return (admitted (resolved_profile a a.profile_id ""))
  resolve_assignment run spec a (some name) = do
    read ← attempt (get_flow_profile api run.metadata.namespace name)
    profile ← lift (or_absent read)
    return (check_flow_profile run spec a name profile)

  -- Behind a round: the loop goes on, or ends at a refusal.
  unfoldable pub resolve_next :
      Gate ResolvedFlowProfile
      → Action IngestCall (Gate (List ResolvedFlowProfile))
      → Action IngestCall (Gate (List ResolvedFlowProfile))
  resolve_next (refused reason message) rest = return (refused reason message)
  resolve_next (admitted p) rest = do ps ← rest; return (prepend p ps)

  -- `resolveIngestFlowProfiles`.
  unfoldable pub resolve_flow_profiles :
      IngestRun
      → IngestRunSpec
      → List FlowAssignment
      → Action IngestCall (Gate (List ResolvedFlowProfile))
  unfolding resolve_assignment resolve_next
  resolve_flow_profiles run spec [] = return (admitted [])
  resolve_flow_profiles run spec (a ∷ rest) =
      resolve_assignment run spec a a.profile_ref >>= λ gate.
      resolve_next gate (resolve_flow_profiles run spec rest)
