-- ===== src/Ingest/Pods.antt =====
-- The Pods of an ingest run (ingestrun_controller.go, ingest_stream.go): which belong to a Job, which
-- of their containers ended last, and the event stream that it left.
use mathlib.Core.Bool.{not}
use tamoss.Base.{
  ℕ, String, ◌==◌, Bool, true, false, ◌&&◌, ◌||◌, Option, none, some, List, [], ◌∷◌, any, ltb,
  nat_eq, if◌then◌else◌,
}
use tamoss.Base.Assoc.{get}
use tamoss.Kube.{Error, wrapf}
use tamoss.Effect.{Result, ok, err, Action, return, throw, lift, attempt, call, ◌>>=◌}
use tamoss.Ingest.Run.{IngestRun, Pod, ContainerStatus, Terminated}
use tamoss.Ingest.Names.{ingest_run_selector_value}
use tamoss.Ingest.Stream.{
  StreamSummary, PodLog, decode_ingest_stream, stream_unavailable, stream_invalid,
}
use tamoss.Ingest.Job.{Job}
use tamoss.Ingest.Desired.{ingest_run_label, ingest_run_target_label}
use tamoss.Ingest.Api.{IngestApi, IngestCall, read_log, get_run_pods}

-- `podOwnedByJobUID`.
unfoldable pub pod_owned_by_job : Pod → String → Bool
pod_owned_by_job pod uid = any (λ o. o.kind == "Job" && o.uid == uid) pod.metadata.owner_references

-- The name of a Pod and the end of its container, the latest so far.
abbrev pub Selected : Type 0
Selected = Option (String × Terminated)

abbrev pub later : Selected → String → Terminated → Selected
later none name t = some (name, t)
later (some (n, s)) name t = if ltb s.finished_at t.finished_at then some (name, t) else some (n, s)

-- One container status of the loop in `terminalIngestPodResult`, by whether it is TAMSin's.
abbrev pub considered : String → Selected → Bool → Option Terminated → Selected
considered name selected is_tamsin none = selected
considered name selected true (some t) = later selected name t
considered name selected false (some t) = selected

unfoldable pub consider : String → Selected → ContainerStatus → Selected
consider name selected c = considered name selected (c.name == "tamsin") c.terminated

unfoldable pub consider_containers : String → Selected → List ContainerStatus → Selected
unfolding consider
consider_containers name selected [] = selected
consider_containers name selected (c ∷ cs) = consider_containers name (consider name selected c) cs

-- One Pod, by whether it is the Job's.
abbrev pub consider_owned : Pod → Selected → Bool → Selected
consider_owned p selected true = consider_containers p.metadata.name selected p.container_statuses
consider_owned p selected false = selected

abbrev pub is_owned : String → Pod → Bool
is_owned uid p = not (uid == "") && pod_owned_by_job p uid

-- The loop over the Pods.
unfoldable pub consider_pods : String → Selected → List Pod → Selected
unfolding pod_owned_by_job consider_containers
consider_pods uid selected [] = selected
consider_pods uid selected (p ∷ ps) =
    consider_pods uid (consider_owned p selected (is_owned uid p)) ps

abbrev pub exit_code_error : Error
exit_code_error =
    wrapf "%w: run.finished exit_code %d does not match container exit code %d" [] stream_invalid

-- The test on the exit code that ends `collectIngestStream`.
unfoldable pub check_exit_code : ℕ → StreamSummary → Result StreamSummary
check_exit_code exit_code summary =
    if nat_eq summary.exit_code exit_code then ok summary else err exit_code_error

abbrev pub checked : ℕ → Result StreamSummary → Result StreamSummary
checked exit_code (err e) = err e
checked exit_code (ok summary) = check_exit_code exit_code summary

-- Whether a Pod of the label is the run's: of its instance, and of its Job if one is recorded.
unfoldable pub is_remaining : IngestRun → Pod → Bool
unfolding get pod_owned_by_job
is_remaining run p =
    get ingest_run_target_label p.metadata.labels == run.spec.tamoss_ref
    && (run.status.job_ref.uid == "" || pod_owned_by_job p run.status.job_ref.uid)

unfoldable pub selected_of : Job → Result (List Pod) → Result Selected
unfolding consider_pods
selected_of job (err e) = err (
    wrapf "list terminal Pods for Job %s/%s: %w" (job.metadata.namespace ∷ job.metadata.name ∷ [])
      e)
selected_of job (ok pods) = ok (consider_pods job.metadata.uid none pods)

module _ (api : IngestApi) where
  -- `terminalIngestPodResult`.
  unfoldable pub terminal_pod_result : Job → Action IngestCall Selected
  unfolding selected_of
  terminal_pod_result job = do
    listed ← attempt (get_run_pods api job.metadata.namespace "job-name" job.metadata.name)
    lift (selected_of job listed)

  abbrev pub log_of : Result PodLog → Result PodLog
  log_of (ok log) = ok log
  log_of (err e) = err (wrapf "%w: read terminal Pod log" [] stream_unavailable)

  -- `collectIngestStream`, behind the choice of the Pod.
  unfoldable pub stream_of :
      Job
      → (List IngestCall → String → String → String → Result PodLog)
      → Selected
      → Action IngestCall StreamSummary
  unfolding decode_ingest_stream check_exit_code
  stream_of job pod_log none = throw stream_unavailable
  stream_of job pod_log (some (name, t)) = do
    read ← attempt (
        call (read_log job.metadata.namespace name "tamsin")
          (λ log. pod_log log job.metadata.namespace name "tamsin"))
    log ← lift (log_of read)
    lift (checked t.exit_code (decode_ingest_stream api.declares_protocol api.reduce log))

  abbrev pub collect_by :
      Job
      → Option (List IngestCall → String → String → String → Result PodLog)
      → Action IngestCall StreamSummary
  collect_by job none = throw stream_unavailable
  collect_by job (some reader) = terminal_pod_result job >>= stream_of job reader

  -- `collectIngestStream`.
  unfoldable pub collect_ingest_stream : Job → Action IngestCall StreamSummary
  unfolding terminal_pod_result stream_of
  collect_ingest_stream job = collect_by job api.pod_log

  -- `ingestRunPodsRemain`.
  unfoldable pub run_pods_remain : IngestRun → Action IngestCall Bool
  unfolding is_remaining ingest_run_selector_value
  run_pods_remain run = do
    pods ←
        get_run_pods api run.metadata.namespace ingest_run_label
          (ingest_run_selector_value api.sha256_hex run.metadata.name)
    return (any (is_remaining run) pods)
