-- ===== src/Ingest/Stream.antt =====
-- operator/internal/controller/ingest_stream.go: the summary of the event stream that a finished
-- TAMSin Pod wrote to its log. The reduction of the events (ingestevent.Reduce) and the test of a
-- line's JSON are parameters.
use Prim.Native.Char.{code}
use Prim.Native.Nat.{◌^◌, ◌%◌}
use mathlib.Core.Bool.{not}
use tamoss.Base.{
  ℕ, suc, String, ◌==◌, ◌+◌, ◌-◌, Bool, true, ◌&&◌, ◌||◌, Option, none, some, is_some, List, [],
  ◌∷◌, any, leb, ltb, length, map, nat_eq, take, if◌then◌else◌,
}
use tamoss.Base.Assoc.{Assoc, find}
use tamoss.Base.Sorting.{sort, text_less}
use tamoss.Base.Text.{trim_space, concat, extend}
use tamoss.Base.Text.Bytes.{byte_length, take_bytes}
use tamoss.Kube.{Error, sentinel, wrapf}
use tamoss.Effect.{Result, ok, err}
use tamoss.Ingest.Run.{IngestRunOutput, OutputFlow, IngestRunStatus}

-- `ingestevent.RunOutcome`.
pub data RunOutcome : Type 0 where
  run_succeeded run_partial run_interrupted run_failed : RunOutcome
  run_other : String → RunOutcome

-- `ingestevent.State`: the fields that the code uses. The counters are a `uint64`; the exit code has
-- the bits of an `int`.
pub record Finished : Type 0 where
  pub outcome : RunOutcome
  pub exit_code : ℕ
  pub total : ℕ
  pub succeeded : ℕ
  pub failed : ℕ
  pub bytes_uploaded : ℕ

pub record FlowResult : Type 0 where
  pub source_id : String
  pub role : String

pub record PlannedFlow : Type 0 where
  pub format : String
  pub role : String

-- `root_flow_id` is absent if the input is not finished.
pub record InputState : Type 0 where
  pub root_flow_id : Option String
  pub flow_results : Assoc FlowResult
  pub planned_flows : Assoc PlannedFlow

pub record StreamState : Type 0 where
  pub run_id : String
  pub next_sequence : ℕ
  pub finished : Option Finished
  pub inputs : List (ℕ × InputState)

-- `ingestStreamSummary`; the exit code has the bits of an `int32`.
pub record StreamSummary : Type 0 where
  pub run_id : String
  pub last_sequence : ℕ
  pub outcome : RunOutcome
  pub exit_code : ℕ
  pub run_finished : Bool
  pub total : ℕ
  pub succeeded : ℕ
  pub failed : ℕ
  pub inputs_completed : ℕ
  pub bytes_uploaded : ℕ
  pub output : Option IngestRunOutput

-- `errIngestStreamUnavailable`, `errIngestStreamInvalid`.
abbrev pub stream_unavailable : Error
stream_unavailable = sentinel "TAMSin event stream is unavailable"

abbrev pub stream_invalid : Error
stream_invalid = sentinel "TAMSin event stream is invalid"

abbrev pub max_line_bytes : ℕ
max_line_bytes = 2097152

abbrev pub max_stream_bytes : ℕ
max_stream_bytes = 67108864

abbrev pub max_output_member_flows : ℕ
max_output_member_flows = 16

abbrev pub max_int32 : ℕ
max_int32 = 2 ^ 31 - 1

abbrev pub max_int64 : ℕ
max_int64 = 2 ^ 63 - 1

-- Whether the bits of an `int` are between `math.MinInt32` and `math.MaxInt32`.
unfoldable pub fits_int32 : ℕ → Bool
fits_int32 n = leb n max_int32 || leb (2 ^ 64 - 2 ^ 31) n

-- The lines of a text, as `bufio.ScanLines` cuts them; no line follows a last line feed.
unfoldable pub lines : String → List String
lines String.[] = []
lines (String.◌∷◌ c s) =
    let rest = lines s in if nat_eq (code c) 10 then "" ∷ rest else extend c rest

abbrev role_of : FlowResult → Option PlannedFlow → String
role_of result none = result.role
role_of result (some planned) = if result.role == "" then planned.role else result.role

abbrev format_of : Option PlannedFlow → String
format_of none = ""
format_of (some planned) = planned.format

abbrev found_result : Option FlowResult → FlowResult
found_result none = record { source_id = ""; role = "" }
found_result (some r) = r

-- The member flow of the loop in `ingestOutputFromState`.
unfoldable pub member_flow : InputState → String → OutputFlow
unfolding find
member_flow input id =
    let planned = find id input.planned_flows in
    record {
      id = id;
      format = format_of planned;
      role = role_of (found_result (find id input.flow_results)) planned;
    }

-- The identifiers of the flows beside the root flow.
unfoldable pub other_flows : String → Assoc FlowResult → List String
other_flows root [] = []
other_flows root ((id, r) ∷ m) =
    let rest = other_flows root m in if id == root then rest else id ∷ rest

unfoldable pub output_of_root : InputState → String → Option FlowResult → Option IngestRunOutput
unfolding member_flow other_flows sort
output_of_root input root none = none
output_of_root input root (some result) =
    let flow_ids = sort text_less (other_flows root input.flow_results) in
    some (record {
      root_flow_id = root;
      source_id = result.source_id;
      member_flows = map (member_flow input) (take max_output_member_flows flow_ids);
      member_flows_truncated = ltb max_output_member_flows (length flow_ids);
    })

-- By the root flow of the finished input.
unfoldable pub output_of_root_id : InputState → Option String → Option IngestRunOutput
unfolding output_of_root find
output_of_root_id input none = none
output_of_root_id input (some root) =
    if root == "" then none else output_of_root input root (find root input.flow_results)

-- By `state.Inputs[0]`.
abbrev pub output_of_input : Option InputState → Option IngestRunOutput
output_of_input none = none
output_of_input (some input) = output_of_root_id input input.root_flow_id

-- `m[i]` of a map from numbers.
abbrev pub input_at : ℕ → List (ℕ × InputState) → Option InputState
input_at i [] = none
input_at i ((j, input) ∷ rest) = if nat_eq i j then some input else input_at i rest

-- `ingestOutputFromState`.
unfoldable pub output_from_state : StreamState → Option IngestRunOutput
unfolding output_of_root_id
output_from_state state =
    if nat_eq (length state.inputs) 1 then output_of_input (input_at 0 state.inputs) else none

-- How many inputs are finished.
unfoldable pub completed : List (ℕ × InputState) → ℕ
completed [] = 0
completed ((i, input) ∷ rest) =
    let n = completed rest in if is_some input.root_flow_id then suc n else n

-- What the reader of a Pod's log gives: its text, and whether it stopped with an error.
pub record PodLog : Type 0 where
  pub text : String
  pub read_error : Bool

abbrev pub scan_error : Error
scan_error = wrapf "%w: scan merged Pod logs: %v" [] stream_invalid

-- An error that wraps `errIngestStreamInvalid`.
abbrev pub invalid : String → Error
invalid f = wrapf f [] stream_invalid

abbrev pub counters_fit : StreamState → Finished → Bool
counters_fit state f =
    leb (state.next_sequence - 1) max_int64
    && leb f.total max_int32
    && leb f.succeeded max_int32
    && leb f.failed max_int32
    && leb f.bytes_uploaded max_int64
    && leb (length state.inputs) max_int32
    && fits_int32 f.exit_code

unfoldable pub summary_of : StreamState → Finished → StreamSummary
unfolding completed output_from_state
summary_of state f = record {
  run_id = state.run_id;
  last_sequence = state.next_sequence - 1;
  outcome = f.outcome;
  exit_code = f.exit_code % 2 ^ 32;
  run_finished = true;
  total = f.total;
  succeeded = f.succeeded;
  failed = f.failed;
  inputs_completed = completed state.inputs;
  bytes_uploaded = f.bytes_uploaded;
  output = output_from_state state;
}

-- The checks on the end of the stream.
abbrev pub summary_of_finished : StreamState → Option Finished → Result StreamSummary
summary_of_finished state none = err (invalid "%w: stream has no terminal event")
summary_of_finished state (some f) =
    if nat_eq state.next_sequence 0
    then err (invalid "%w: stream has no terminal event")
    else if not (counters_fit state f)
    then err (invalid "%w: terminal counters exceed status bounds")
    else ok (summary_of state f)

-- The part of `decodeIngestStream` behind the reduction.
unfoldable pub summary_of_reduced : Result StreamState → Result StreamSummary
unfolding summary_of fits_int32
summary_of_reduced (err e) = err (invalid "%w: %v")
summary_of_reduced (ok state) = summary_of_finished state state.finished

-- The reader uses up the limit of one byte more than the bound: `limited.N == 0`.
abbrev pub is_exhausted : PodLog → Bool
is_exhausted log = ltb max_stream_bytes (byte_length log.text)

-- `io.LimitedReader` with one byte more than the bound; it does not see an error behind that.
abbrev pub limited : PodLog → PodLog
limited log = record {
  text = take_bytes (max_stream_bytes + 1) log.text;
  read_error = log.read_error && not (is_exhausted log);
}

-- `declares_protocol` says of a line that it is a JSON object with the field `protocol`.
module _ (declares_protocol : String → Bool) (reduce : String → Result StreamState) where
  -- The loop of `extractIngestProtocolEvents` over the scanned lines.
  unfoldable pub protocol_events : List String → String
  unfolding trim_space
  protocol_events [] = ""
  protocol_events (l ∷ ls) =
      let rest = protocol_events ls in
      let line = trim_space l in
      if line == ""
      then rest
      else if declares_protocol line
      then concat (line ∷ "\n" ∷ rest ∷ [])
      else rest

  -- `extractIngestProtocolEvents`: the scanner stops with an error at a line that does not fit into
  -- its buffer.
  unfoldable pub extract_ingest_protocol_events : PodLog → Result String
  unfolding protocol_events lines byte_length
  extract_ingest_protocol_events log =
      let scanned = lines log.text in
      if log.read_error || any (λ l. leb max_line_bytes (byte_length l)) scanned
      then err scan_error
      else ok (protocol_events scanned)

  abbrev pub reduced : PodLog → Result String → Result StreamSummary
  reduced log (err e) = err e
  reduced log (ok events) =
      if is_exhausted log
      then err (invalid "%w: stream exceeds %d bytes")
      else summary_of_reduced (reduce events)

  -- `decodeIngestStream`.
  unfoldable pub decode_ingest_stream : PodLog → Result StreamSummary
  unfolding extract_ingest_protocol_events summary_of_reduced take_bytes byte_length
  decode_ingest_stream log = reduced log (extract_ingest_protocol_events (limited log))

-- `applyIngestStreamSummary`.
unfoldable pub apply_stream_summary : Option StreamSummary → IngestRunStatus → IngestRunStatus
apply_stream_summary none status = status
apply_stream_summary (some summary) status = record status {
  tamsin_run_id = summary.run_id;
  last_event_sequence =
      if ltb status.last_event_sequence summary.last_sequence
      then summary.last_sequence
      else status.last_event_sequence;
  progress = record status.progress {
    inputs_total = summary.total;
    inputs_completed = summary.inputs_completed;
    inputs_succeeded = summary.succeeded;
    inputs_failed = summary.failed;
    bytes_uploaded = summary.bytes_uploaded;
  };
  output = summary.output;
}
