-- ===== src/Ingest/AdmitGuarded.antt =====
-- The calls of the admission of an ingest run are allowed ones.
use mathlib.Core.Bool.{not}
use tamoss.Base.{ℕ, String, ◌==◌, ◌≡◌, refl, Bool, true, false, Option, none, some, List, [], arith}
use tamoss.Base.Text.{trim_space}
use tamoss.Kube.{ObjectMeta, Error}
use tamoss.Effect.{Result, ok, err}
use tamoss.Effect.Preserves.{
  Preserves-Every, Preserves-return, Preserves-attempt, Preserves-lift, Preserves-bind,
  Preserves-if,
}
use tamoss.Effect.Yields.{
  Answers, Found, of_itself, Yields-lift, Yields-answer, Yields-Answers, Preserves-bind_yield,
}
use tamoss.Config.{Config, resolve_tamoss}
use tamoss.Resources.{Tamoss}
use tamoss.Ingest.Run.{IngestRun, IngestRunSpec, ResolvedFlowProfile}
use tamoss.Ingest.Names.{is_immutable_image_reference}
use tamoss.Ingest.Output.{flow_metadata_json}
use tamoss.Ingest.Inputs.{ResolvedIngestInputs}
use tamoss.Ingest.Job.{Job}
use tamoss.Ingest.Desired.{desired_ingest_job}
use tamoss.Ingest.Api.{IngestApi, IngestCall}
use tamoss.Ingest.Gates.{
  Gate, admitted, refused, ready_for_ingest, validate_retry_parent, resolve_storage_backend,
  resolve_flow_profiles,
}
use tamoss.Ingest.Admit.{
  InputResolver, with_resolved_profiles, submit_job, admit_metadata, admit_endpoint,
  admit_resolved_endpoint, admit_inputs, admit_checked_inputs, admit_resolved_inputs,
  admit_recorded, admit_profiles, admit_storage, admit_attempt, admit_instance, admit, admit_with,
}
use tamoss.Ingest.Discipline.{
  wanted_spec, IsWanted, IsTarget, IsGated, IsPlanned, IsReached, MayCall, Keeps,
}
use tamoss.Ingest.GatesGuarded.{
  Keeps-retry_parent, Keeps-storage_backend, Keeps-flow_profiles, Keeps-persist, Keeps-created,
  MayShow-active, Keeps-wait, Keeps-wait_static, Keeps-refused, Yields-persist, IsRecorded,
}

module _ (api : IngestApi) (cfg : Config) (run : IngestRun) where
  abbrev spec_of : List ResolvedFlowProfile → IngestRunSpec
  spec_of ps = with_resolved_profiles (wanted_spec api cfg run) ps

  -- A run that has been let through by every check up to the endpoint's.
  module _ (w : IsWanted api cfg run) (t : Tamoss) (target : IsTarget api cfg run t) (n : ℕ)
      (storage_id : String) (ps : List ResolvedFlowProfile)
      (gated : IsGated api cfg run n storage_id ps) where
    module _ (resolved : ResolvedIngestInputs)
        (planned : IsPlanned api cfg run t (spec_of ps) resolved) where
      abbrev job_with : String → String → Job
      job_with endpoint flow_metadata =
          desired_ingest_job api.sha256_hex run (spec_of ps) t endpoint t.spec.tamsin_image
            storage_id flow_metadata resolved

      Keeps-submit :
          (endpoint flow_metadata : String)
          → IsReached api cfg run (spec_of ps) endpoint
          → flow_metadata_json api.json (spec_of ps).output ≡ ok flow_metadata
          → (metadata : ObjectMeta)
          → api.set_controller_reference run.metadata (job_with endpoint flow_metadata).metadata
            ≡ ok metadata
          → Keeps api cfg run
              (submit_job api run resolved n (job_with endpoint flow_metadata) metadata)
      unfolding MayCall submit_job
      Keeps-submit endpoint flow_metadata reached encoded metadata owner =
          Preserves-bind _ _
            (Preserves-attempt _ (
              Preserves-Every (MayCall api cfg run) _ _ (λ log. record {
                run_wanted = w;
                t = t;
                target = target;
                attempt_number = n;
                storage_id = storage_id;
                profiles = ps;
                gated = gated;
                resolved = resolved;
                planned = planned;
                endpoint = endpoint;
                reached = reached;
                flow_metadata = flow_metadata;
                encoded = encoded;
                metadata = metadata;
                owner = owner;
                is_job = refl;
              })))
            (Keeps-created api cfg run resolved n)

      Keeps-metadata :
          (endpoint flow_metadata : String)
          → IsReached api cfg run (spec_of ps) endpoint
          → flow_metadata_json api.json (spec_of ps).output ≡ ok flow_metadata
          → Keeps api cfg run
              (admit_metadata api run t n storage_id (spec_of ps) resolved endpoint flow_metadata)
      unfolding admit_metadata
      Keeps-metadata endpoint flow_metadata reached encoded =
          Preserves-bind_yield _ _ (Preserves-lift _) (Yields-lift _ (of_itself _))
            (Keeps-submit endpoint flow_metadata reached encoded)

      Keeps-endpoint :
          (endpoint : Option String)
          → ((s : String) → endpoint ≡ some s → IsReached api cfg run (spec_of ps) s)
          → Keeps api cfg run (admit_endpoint api run t n storage_id (spec_of ps) resolved endpoint)
      unfolding admit_endpoint
      Keeps-endpoint none reached = Keeps-wait_static api cfg run _ _
      Keeps-endpoint (some endpoint) reached =
          Preserves-bind_yield _ _ (Preserves-lift _) (Yields-lift _ (of_itself _))
            (λ flow_metadata. Keeps-metadata endpoint flow_metadata (reached endpoint refl))

      module _ (resolver : List IngestCall → String → String → Result String)
          (configured : api.endpoint_resolver ≡ some resolver) where
        Keeps-resolved_endpoint :
            (r : Result String)
            → ((log : List IngestCall) × (resolver log run.metadata.namespace
                    (spec_of ps).tamoss_ref
                  ≡ r))
            → Keeps api cfg run
                (admit_resolved_endpoint api run t n storage_id (spec_of ps) resolved r)
        unfolding admit_resolved_endpoint
        Keeps-resolved_endpoint (err e) answer = Keeps-wait api cfg run _ _
        Keeps-resolved_endpoint (ok endpoint) (log, answered) = Keeps-endpoint _ (λ s approved.
            record {
              resolver = resolver;
              configured = configured;
              at = log;
              answer = endpoint;
              answered = answered;
              approved = approved;
            })

      Keeps-inputs :
          (resolver : Option (List IngestCall → String → String → Result String))
          → api.endpoint_resolver ≡ resolver
          → Keeps api cfg run (admit_inputs api run t n storage_id (spec_of ps) resolved resolver)
      unfolding MayCall admit_inputs
      Keeps-inputs none e = Keeps-wait_static api cfg run _ _
      Keeps-inputs (some resolver) e =
          Preserves-bind_yield _ _
            (Preserves-attempt _ (Preserves-Every (MayCall api cfg run) _ _ (λ log. tt)))
            (Yields-answer _ _) (Keeps-resolved_endpoint resolver e)

    Keeps-checked :
        (resolved : ResolvedIngestInputs) (e : Option Error)
        → (e ≡ none → IsPlanned api cfg run t (spec_of ps) resolved)
        → Keeps api cfg run (admit_checked_inputs api run t n storage_id (spec_of ps) resolved e)
    unfolding admit_checked_inputs
    Keeps-checked resolved (some x) planned = Keeps-wait api cfg run _ _
    Keeps-checked resolved none planned = Keeps-inputs resolved (planned refl) _ refl

    module _ (resolver : InputResolver) (configured : api.input_resolver ≡ some resolver) where
      Keeps-resolved_inputs :
          (r : Result ResolvedIngestInputs)
          → ((log : List IngestCall) × (resolver log t
                  (spec_of ps).input
                  (spec_of ps).options.max_inputs
                ≡ r))
          → Keeps api cfg run (admit_resolved_inputs api run t n storage_id (spec_of ps) r)
      unfolding admit_resolved_inputs
      Keeps-resolved_inputs (err e) answer = Keeps-wait api cfg run _ _
      Keeps-resolved_inputs (ok resolved) (log, answered) = Keeps-checked resolved _ (λ bounded.
          record {
            resolver = resolver;
            configured = configured;
            at = log;
            answered = answered;
            bounded = bounded;
          })

  module _ (w : IsWanted api cfg run) (t : Tamoss) (target : IsTarget api cfg run t) (n : ℕ)
      (retried : Answers
        (validate_retry_parent api run (wanted_spec api cfg run) (wanted_spec api cfg run).retry_of)
        (admitted n))
      (resolver : InputResolver) (configured : api.input_resolver ≡ some resolver)
      (storage_id : String)
      (stored : Answers
        (resolve_storage_backend api run
          (wanted_spec api cfg run)
          (wanted_spec api cfg run).options.storage_backend_ref)
        (admitted storage_id)) where
    Keeps-recorded :
        (ps : List ResolvedFlowProfile)
        → Answers
            (resolve_flow_profiles api run
              (wanted_spec api cfg run)
              (wanted_spec api cfg run).options.tams_flow_profiles)
            (admitted ps)
        → (changed : Bool) → IsRecorded api cfg run ps changed
        → Keeps api cfg run
            (admit_recorded api run t n storage_id resolver (wanted_spec api cfg run) ps changed)
    unfolding MayCall admit_recorded
    Keeps-recorded ps profiled true h = Preserves-return _
    Keeps-recorded ps profiled false h =
        Preserves-bind_yield _ _
          (Preserves-attempt _ (Preserves-Every (MayCall api cfg run) _ _ (λ log. tt)))
          (Yields-answer _ _)
          (Keeps-resolved_inputs w t target n storage_id ps
            (record {
              retried = retried;
              stored = stored;
              profiled = profiled;
              recorded = ground arith;
            })
            resolver configured)

    Keeps-profiles :
        (gate : Gate (List ResolvedFlowProfile))
        → Answers
            (resolve_flow_profiles api run
              (wanted_spec api cfg run)
              (wanted_spec api cfg run).options.tams_flow_profiles)
            gate
        → Keeps api cfg run
            (admit_profiles api run t n storage_id resolver (wanted_spec api cfg run) gate)
    unfolding admit_profiles
    Keeps-profiles (refused reason message) profiled =
        Preserves-bind _ _ (Keeps-persist api cfg run [] (MayShow-active api cfg run _ w.active))
          (Keeps-refused api cfg run t n storage_id reason message)
    Keeps-profiles (admitted ps) profiled =
        Preserves-bind_yield _ _
          (Keeps-persist api cfg run ps (MayShow-active api cfg run _ w.active))
          (Yields-persist api cfg run ps) (Keeps-recorded ps profiled)

  module _ (w : IsWanted api cfg run) where
    module _ (t : Tamoss) (target : IsTarget api cfg run t) where
      Keeps-storage :
          (resolver : InputResolver)
          → api.input_resolver ≡ some resolver
          → (n : ℕ)
          → Answers
              (validate_retry_parent api run
                (wanted_spec api cfg run)
                (wanted_spec api cfg run).retry_of)
              (admitted n)
          → (gate : Gate String)
          → Answers
              (resolve_storage_backend api run
                (wanted_spec api cfg run)
                (wanted_spec api cfg run).options.storage_backend_ref)
              gate
          → Keeps api cfg run (admit_storage api run t (wanted_spec api cfg run) resolver n gate)
      unfolding admit_storage
      Keeps-storage resolver e n retried (refused reason message) stored =
          Keeps-wait api cfg run _ _
      Keeps-storage resolver e n retried (admitted storage_id) stored =
          Preserves-bind_yield _ _ (Keeps-flow_profiles api cfg run (wanted_spec api cfg run) _)
            (Yields-Answers _) (Keeps-profiles w t target n retried resolver e storage_id stored)

      Keeps-with :
          (n : ℕ)
          → Answers
              (validate_retry_parent api run
                (wanted_spec api cfg run)
                (wanted_spec api cfg run).retry_of)
              (admitted n)
          → (resolver : Option InputResolver) → api.input_resolver ≡ resolver
          → Keeps api cfg run (admit_with api run t (wanted_spec api cfg run) n resolver)
      Keeps-with n retried none e = Keeps-wait_static api cfg run _ _
      Keeps-with n retried (some resolver) e =
          Preserves-bind_yield _ _ (Keeps-storage_backend api cfg run (wanted_spec api cfg run) _)
            (Yields-Answers _) (Keeps-storage resolver e n retried)

      Keeps-attempt :
          (gate : Gate ℕ)
          → Answers
              (validate_retry_parent api run
                (wanted_spec api cfg run)
                (wanted_spec api cfg run).retry_of)
              gate
          → Keeps api cfg run (admit_attempt api run t (wanted_spec api cfg run) gate)
      unfolding admit_attempt
      Keeps-attempt (refused reason message) retried = Keeps-wait api cfg run _ _
      Keeps-attempt (admitted n) retried = Keeps-with n retried _ refl

    holds_of_not : (b : Bool) → not b ≡ false → b ≡ true
    holds_of_not b e = ground arith

    Keeps-instance :
        (answer : Tamoss)
        → Found
            (λ log. api.tamoss_at log run.metadata.namespace (wanted_spec api cfg run).tamoss_ref)
            (some answer)
        → (t : Tamoss) → resolve_tamoss cfg answer ≡ ok t
        → Keeps api cfg run (admit_instance api run t (wanted_spec api cfg run) cfg)
    unfolding admit_instance
    Keeps-instance answer found t released =
        Preserves-if (not (ready_for_ingest api cfg t)) _ _ (λ _. Keeps-wait api cfg run _ _)
          (λ ready.
            Preserves-if (trim_space t.spec.tamsin_image == "") _ _
              (λ _. Keeps-wait_static api cfg run _ _)
              (λ image.
                Preserves-if (not (is_immutable_image_reference t.spec.tamsin_image)) _ _
                  (λ _. Keeps-wait_static api cfg run _ _)
                  (λ pinned.
                    Preserves-if (not t.spec.api_token_generate) _ _
                      (λ _. Keeps-wait api cfg run _ _)
                      (λ token.
                        Preserves-bind_yield _ _
                          (Keeps-retry_parent api cfg run (wanted_spec api cfg run) _)
                          (Yields-Answers _)
                          (Keeps-attempt t (record {
                            answer = answer;
                            found = found;
                            released = released;
                            ready = holds_of_not _ ready;
                            image = image;
                            pinned = holds_of_not _ pinned;
                            token = holds_of_not _ token;
                          }))))))

    pub Keeps-admit :
        (answer : Tamoss)
        → Found
            (λ log. api.tamoss_at log run.metadata.namespace (wanted_spec api cfg run).tamoss_ref)
            (some answer)
        → (r : Result Tamoss) → resolve_tamoss cfg answer ≡ r
        → Keeps api cfg run (admit api run cfg (wanted_spec api cfg run) r)
    unfolding admit
    Keeps-admit answer found (err e) released = Keeps-wait api cfg run _ _
    Keeps-admit answer found (ok t) released = Keeps-instance answer found t released
