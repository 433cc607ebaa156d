-- ===== src/Ingest/Evidence.antt =====
-- What the summary of a run's event stream rests on: the answers of the API server that it was made
-- from (collectIngestStream in ingest_stream.go).
use tamoss.Base.{
  String, ◌≡◌, refl, Bool, true, false, Option, none, some, List, nat_eq, if◌then◌else◌,
}
use tamoss.Effect.{Result, ok, err}
use tamoss.Effect.Yields.{
  OfResult, Yields, Yields-throw, Yields-lift, Yields-call, Yields-attempt, Yields-bind,
}
use tamoss.Ingest.Run.{Pod, Terminated}
use tamoss.Ingest.Stream.{StreamSummary, PodLog, decode_ingest_stream}
use tamoss.Ingest.Job.{Job}
use tamoss.Ingest.Api.{IngestApi, IngestCall}
use tamoss.Ingest.Pods.{
  Selected, consider_pods, selected_of, terminal_pod_result, stream_of, collect_ingest_stream,
  check_exit_code, checked, exit_code_error, log_of, collect_by,
}

module _ (api : IngestApi) (job : Job) where
  -- The Pod is the one that ended last among those that an answer of the API server lists.
  pub record IsLastPod (pod : String) (t : Terminated) : Type 0 where
    pub log : List IngestCall
    pub pods : List Pod
    pub listed : api.pods_at log job.metadata.namespace "job-name" job.metadata.name ≡ ok pods
    pub chosen : consider_pods job.metadata.uid none pods ≡ some (pod, t)

  -- The summary is decoded from the log of that Pod, and agrees with the end of its container.
  pub record IsCollected (summary : StreamSummary) : Type 0 where
    pub pod : String
    pub terminated : Terminated
    pub last_pod : IsLastPod pod terminated
    pub reader : List IngestCall → String → String → String → Result PodLog
    pub is_reader : api.pod_log ≡ some reader
    pub log : List IngestCall
    pub pod_log : PodLog
    pub answered : reader log job.metadata.namespace pod "tamsin" ≡ ok pod_log
    pub decoded : decode_ingest_stream api.declares_protocol api.reduce pod_log ≡ ok summary
    pub agreed : nat_eq summary.exit_code terminated.exit_code ≡ true

  unfoldable IsSelected : Selected → Type 0
  IsSelected none = Unit
  IsSelected (some (pod, t)) = IsLastPod pod t

  unfoldable IsListed : List Pod → Type 0
  IsListed pods =
      (log : List IngestCall) × (api.pods_at log job.metadata.namespace "job-name" job.metadata.name
        ≡ ok pods)

  IsSelected-consider :
      (log : List IngestCall) (pods : List Pod) (s : Selected)
      → api.pods_at log job.metadata.namespace "job-name" job.metadata.name ≡ ok pods
      → consider_pods job.metadata.uid none pods ≡ s
      → IsSelected s
  unfolding IsSelected
  IsSelected-consider log pods none listed e = tt
  IsSelected-consider log pods (some (pod, t)) listed e = record {
    log = log;
    pods = pods;
    listed = listed;
    chosen = e;
  }

  answered-IsListed :
      (log : List IngestCall) (r : Result (List Pod))
      → api.pods_at log job.metadata.namespace "job-name" job.metadata.name ≡ r
      → OfResult IsListed r
  unfolding IsListed
  answered-IsListed log (ok pods) e = (log, e)
  answered-IsListed log (err e) h = tt

  selected_of-IsSelected :
      (r : Result (List Pod)) → OfResult IsListed r → OfResult IsSelected (selected_of job r)
  unfolding IsListed selected_of
  selected_of-IsSelected (ok pods) (log, e) = IsSelected-consider log pods _ e refl
  selected_of-IsSelected (err e) h = tt

  Yields-terminal_pod : Yields IsSelected (terminal_pod_result api job)
  unfolding terminal_pod_result
  Yields-terminal_pod =
      Yields-bind _ _ (Yields-attempt _ (Yields-call _ _ (λ log. answered-IsListed log _ refl)))
        (λ r h. Yields-lift _ (selected_of-IsSelected r h))

  module _ (pod : String) (t : Terminated) (last_pod : IsLastPod pod t)
      (reader : List IngestCall → String → String → String → Result PodLog)
      (is_reader : api.pod_log ≡ some reader) where
    IsRead : PodLog → Type 0
    IsRead pod_log =
        (log : List IngestCall) × (reader log job.metadata.namespace pod "tamsin" ≡ ok pod_log)

    answered-IsRead :
        (log : List IngestCall) (r : Result PodLog)
        → reader log job.metadata.namespace pod "tamsin" ≡ r
        → OfResult IsRead r
    unfolding IsRead
    answered-IsRead log (ok pod_log) e = (log, e)
    answered-IsRead log (err e) h = tt

    log_of-IsRead : (r : Result PodLog) → OfResult IsRead r → OfResult IsRead (log_of api r)
    log_of-IsRead (ok log) h = h
    log_of-IsRead (err e) h = tt

    agreed-IsCollected :
        (pod_log : PodLog) (summary : StreamSummary) (b : Bool)
        → IsRead pod_log
        → decode_ingest_stream api.declares_protocol api.reduce pod_log ≡ ok summary
        → nat_eq summary.exit_code t.exit_code ≡ b
        → OfResult IsCollected (if b then ok summary else err (exit_code_error))
    unfolding IsRead
    agreed-IsCollected pod_log summary true (log, answered) decoded agreed = record {
      pod = pod;
      terminated = t;
      last_pod = last_pod;
      reader = reader;
      is_reader = is_reader;
      log = log;
      pod_log = pod_log;
      answered = answered;
      decoded = decoded;
      agreed = agreed;
    }
    agreed-IsCollected pod_log summary false read decoded agreed = tt

    decoded-IsCollected :
        (pod_log : PodLog) (r : Result StreamSummary)
        → IsRead pod_log
        → decode_ingest_stream api.declares_protocol api.reduce pod_log ≡ r
        → OfResult IsCollected (checked t.exit_code r)
    unfolding check_exit_code
    decoded-IsCollected pod_log (ok summary) read decoded =
        agreed-IsCollected pod_log summary _ read decoded refl
    decoded-IsCollected pod_log (err e) read decoded = tt

    Yields-stream : Yields IsCollected (stream_of api job reader (some (pod, t)))
    unfolding stream_of
    Yields-stream =
        Yields-bind _ _ (Yields-attempt _ (Yields-call _ _ (λ log. answered-IsRead log _ refl)))
          (λ r h.
            Yields-bind _ _ (Yields-lift _ (log_of-IsRead r h))
              (λ pod_log read. Yields-lift _ (decoded-IsCollected pod_log _ read refl)))

  Yields-selected :
      (reader : List IngestCall → String → String → String → Result PodLog)
      → api.pod_log ≡ some reader
      → (s : Selected) → IsSelected s
      → Yields IsCollected (stream_of api job reader s)
  unfolding IsSelected stream_of
  Yields-selected reader e none h = Yields-throw _
  Yields-selected reader e (some (pod, t)) h = Yields-stream pod t h reader e

  Yields-reader :
      (r : Option (List IngestCall → String → String → String → Result PodLog))
      → api.pod_log ≡ r
      → Yields IsCollected (collect_by api job r)
  Yields-reader none e = Yields-throw _
  Yields-reader (some reader) e = Yields-bind _ _ Yields-terminal_pod (Yields-selected reader e)

  pub Yields-collect : Yields IsCollected (collect_ingest_stream api job)
  unfolding collect_ingest_stream
  Yields-collect = Yields-reader _ refl
