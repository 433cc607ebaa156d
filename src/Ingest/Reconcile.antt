-- ===== src/Ingest/Reconcile.antt =====
-- `Reconcile` of ingestrun_controller.go: the order of its steps.
use mathlib.Core.Bool.{not}
use tamoss.Base.{
  String, ◌==◌, Bool, false, ◌&&◌, Option, none, some, is_some, [], ◌∷◌, nat_eq, if◌then◌else◌,
}
use tamoss.Kube.{Message, literal, sprintf, ReconcileResult, done}
use tamoss.Effect.{Action, return, lift, attempt, or_absent, ◌>>=◌}
use tamoss.Config.{Config, allows, resolve_tamoss}
use tamoss.Resources.{Tamoss}
use tamoss.Ingest.Run.{IngestRun, IngestRunSpec, default_ingest_run_spec, is_terminal}
use tamoss.Ingest.Output.{validate_output}
use tamoss.Ingest.Job.{Job}
use tamoss.Ingest.Api.{IngestApi, IngestCall, get_run, get_instance}
use tamoss.Ingest.Status.{set_phase, set_static_phase}
use tamoss.Ingest.Track.{
  pending, job_belongs_to_run, load_ingest_job, reconcile_cancellation, abandon,
  reconcile_missing_job, track_job,
}
use tamoss.Ingest.Admit.{admit}

abbrev foreign_message : Option Job → Message
foreign_message none = Message.empty
foreign_message (some job) =
    sprintf "Job %s/%s is not owned by this IngestRun"
      (job.metadata.namespace ∷ job.metadata.name ∷ [])

module _ (api : IngestApi) (cfg : Config) where
  -- Behind the read of the instance, for a run without a Job.
  unfoldable pub reconcile_without_job :
      IngestRun → IngestRunSpec → Option Tamoss → Action IngestCall ReconcileResult
  unfolding set_phase reconcile_missing_job admit resolve_tamoss
  reconcile_without_job run spec none = set_phase api run (
      pending "TamossNotFound"
        (sprintf "Tamoss %s/%s does not exist" (run.metadata.namespace ∷ spec.tamoss_ref ∷ [])))
  reconcile_without_job run spec (some t) =
      if not (run.status.job_ref.name == "")
      then reconcile_missing_job api run
      else admit api run cfg spec (resolve_tamoss cfg t)

  -- Behind the read of the instance, for a run with its Job.
  unfoldable pub reconcile_with_job :
      IngestRun → IngestRunSpec → Job → Option Tamoss → Action IngestCall ReconcileResult
  unfolding abandon track_job
  reconcile_with_job run spec job none = abandon api run spec job
  reconcile_with_job run spec job (some t) = track_job api run job

  abbrev pub found_instance :
      IngestRun → IngestRunSpec → Option Job → Option Tamoss → Action IngestCall ReconcileResult
  found_instance run spec none t = reconcile_without_job run spec t
  found_instance run spec (some job) t = reconcile_with_job run spec job t

  -- The read of the instance.
  unfoldable pub reconcile_wanted :
      IngestRun → IngestRunSpec → Option Job → Action IngestCall ReconcileResult
  unfolding reconcile_without_job reconcile_with_job
  reconcile_wanted run spec job = do
    read ← attempt (get_instance api run.metadata.namespace spec.tamoss_ref)
    t ← lift (or_absent read)
    found_instance run spec job t

  abbrev pub is_foreign_job : IngestRun → IngestRunSpec → Option Job → Bool
  is_foreign_job run spec none = false
  is_foreign_job run spec (some job) = not (job_belongs_to_run api job run spec)

  -- Behind the read of the Job.
  unfoldable pub reconcile_loaded :
      IngestRun → IngestRunSpec → Option Job → Action IngestCall ReconcileResult
  unfolding is_terminal job_belongs_to_run set_phase reconcile_cancellation reconcile_wanted
  reconcile_loaded run spec job =
      if is_terminal run.status.phase
      then return done
      else if is_foreign_job run spec job
      then set_phase api run (pending "JobOwnershipConflict" (foreign_message job))
      else if spec.desired_state == "Cancelled"
      then reconcile_cancellation api run job
      else reconcile_wanted run spec job

  abbrev pub several_inputs : IngestRunSpec → Bool
  several_inputs spec = is_some spec.output && not (nat_eq spec.options.max_inputs 1)

  -- `Reconcile` behind the read of the run and the test of the namespace.
  unfoldable pub reconcile_run : IngestRun → Action IngestCall ReconcileResult
  unfolding default_ingest_run_spec validate_output set_static_phase load_ingest_job
      reconcile_loaded
  reconcile_run run =
      let spec = default_ingest_run_spec run.spec in
      if several_inputs spec
      then set_static_phase api run (
          pending "InvalidOutputIntent"
            (literal "Root Flow output metadata requires maxInputs to equal 1"))
      else if is_some (validate_output api.json spec.output)
      then set_static_phase api run
          (pending "InvalidOutputIntent" (literal "The Flow output metadata is invalid"))
      else load_ingest_job api run >>= reconcile_loaded run spec

  abbrev found_run : Option IngestRun → Action IngestCall ReconcileResult
  found_run none = return done
  found_run (some run) =
      if allows cfg.watch_namespaces run.metadata.namespace then reconcile_run run else return done

  -- `Reconcile`.
  unfoldable pub reconcile_ingest : String → String → Action IngestCall ReconcileResult
  unfolding reconcile_run allows
  reconcile_ingest ns name = do
    read ← attempt (get_run api ns name)
    run ← lift (or_absent read)
    found_run run
