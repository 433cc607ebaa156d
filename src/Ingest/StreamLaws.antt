-- ===== src/Ingest/StreamLaws.antt =====
-- The errors of decodeIngestStream, and the bound on the flows that the status keeps of a stream
-- (ingest_stream.go).
use mathlib.Core.List.{Perm}
use tamoss.Base.{
  ℕ, zero, suc, String, ◌==◌, ◌≤◌, ◌≡◌, refl, ap, subst, Bool, true, false, ◌⊎◌, inl, inr, Option,
  none, some, List, [], ◌∷◌, ltb, length, map, nat_eq, take, arith, if◌then◌else◌,
}
use tamoss.Base.Assoc.{find}
use tamoss.Base.Sorting.{sort, text_less, sort-Perm}
use tamoss.Kube.{Time, Error}
use tamoss.Effect.{Result, ok, err}
use tamoss.Ingest.Run.{IngestRunPhase, IngestRunOutput, JobStatus}
use tamoss.Ingest.Stream.{
  StreamState, Finished, summary_of_finished, InputState, FlowResult, PodLog, invalid, limited,
  reduced, decode_ingest_stream, extract_ingest_protocol_events, summary_of_reduced, other_flows,
  member_flow, output_of_root, output_of_root_id, output_of_input, output_from_state, input_at,
}
use tamoss.Ingest.Phase.{is_stream_invalid, stream_failure_phase}

-- An error is one that wraps `errIngestStreamInvalid`.
abbrev InvalidOnly : {A : Type 0} → Result A → Type 0
InvalidOnly (ok a) = Unit
InvalidOnly (err e) = is_stream_invalid e ≡ true

record OnlyInvalid {A : Type 0} (r : Result A) : Type 0 where
  holds : InvalidOnly r

OnlyInvalid-ok : {A : Type 0} (a : A) → OnlyInvalid (ok a)
OnlyInvalid-ok a = record { holds = tt }

OnlyInvalid-err : {A : Type 0} (f : String) → OnlyInvalid {A = A} (err (invalid f))
unfolding is_stream_invalid
OnlyInvalid-err f = record { holds = refl }

OnlyInvalid-if :
    {A : Type 0} (b : Bool) (r r' : Result A)
    → OnlyInvalid r
    → OnlyInvalid r'
    → OnlyInvalid (if b then r else r')
OnlyInvalid-if true r r' h k = h
OnlyInvalid-if false r r' h k = k

OnlyInvalid-finished :
    (state : StreamState) (f : Option Finished) → OnlyInvalid (summary_of_finished state f)
OnlyInvalid-finished state none = OnlyInvalid-err _
OnlyInvalid-finished state (some f) =
    search (OnlyInvalid-if, OnlyInvalid-err, OnlyInvalid-ok) depth 10

OnlyInvalid-reduced : (r : Result StreamState) → OnlyInvalid (summary_of_reduced r)
unfolding summary_of_reduced
OnlyInvalid-reduced (err e) = OnlyInvalid-err _
OnlyInvalid-reduced (ok state) = OnlyInvalid-finished state state.finished

module _ (declares_protocol : String → Bool) (reduce : String → Result StreamState) where
  OnlyInvalid-extracted :
      (log : PodLog) → OnlyInvalid (extract_ingest_protocol_events declares_protocol reduce log)
  unfolding extract_ingest_protocol_events
  OnlyInvalid-extracted log = search (OnlyInvalid-if, OnlyInvalid-err, OnlyInvalid-ok) depth 10

  OnlyInvalid-events :
      (log : PodLog) (r : Result String)
      → OnlyInvalid r
      → OnlyInvalid (reduced declares_protocol reduce log r)
  OnlyInvalid-events log (err e) h = record { holds = h.holds }
  OnlyInvalid-events log (ok events) h =
      search (OnlyInvalid-if, OnlyInvalid-err, OnlyInvalid-reduced) depth 10

  OnlyInvalid-decoded :
      (log : PodLog) → OnlyInvalid (decode_ingest_stream declares_protocol reduce log)
  unfolding decode_ingest_stream
  OnlyInvalid-decoded log = OnlyInvalid-events log _ (OnlyInvalid-extracted (limited log))

  -- A log that cannot be decoded fails the run at once, whenever that is found: whether the stream is
  -- malformed, or the reading of the log breaks off, the error is one of an invalid stream, not one
  -- of a stream that is not yet there.
  pub stream_failure_phase-decode :
      (log : PodLog) (s : JobStatus) (now : Time) (e : Error)
      → decode_ingest_stream declares_protocol reduce log ≡ err e
      → (stream_failure_phase s now e).phase ≡ IngestRunPhase.failed
  unfolding stream_failure_phase
  stream_failure_phase-decode log s now e h =
      let invalid : is_stream_invalid e ≡ true =
        (subst (λ r. OnlyInvalid r) h (OnlyInvalid-decoded log)).holds in
      rw invalid refl

length-take : {A : Type 0} (n : ℕ) (xs : List A) → length (take n xs) ≤ n
length-take zero xs = omega arith
length-take (suc n) [] = omega arith
length-take (suc n) (x ∷ xs) = omega (arith, length-take n xs)

take_all : {A : Type 0} (n : ℕ) (xs : List A) → length xs ≤ n → take n xs ≡ xs
take_all zero [] h = refl
take_all (suc n) [] h = refl
take_all zero (x ∷ xs) h = absurd (omega arith)
take_all (suc n) (x ∷ xs) h = ap (λ l. x ∷ l) (take_all n xs (omega arith))

ids-member_flow :
    (input : InputState) (ids : List String) → map (λ f. f.id) (map (member_flow input) ids) ≡ ids
unfolding member_flow
ids-member_flow input [] = refl
ids-member_flow input (id ∷ ids) = ap (λ l. id ∷ l) (ids-member_flow input ids)

-- What the status says of the stream's only input.
pub record IsOutputOf (state : StreamState) (o : IngestRunOutput) : Type 0 where
  pub input : InputState
  pub only : input_at 0 state.inputs ≡ some input
  pub alone : length state.inputs ≡ 1
  pub root : input.root_flow_id ≡ some o.root_flow_id
  pub bounded : length o.member_flows ≤ 16
  pub complete :
      (o.member_flows_truncated ≡ true)
      ⊎ Perm (map (λ f. f.id) o.member_flows) (other_flows o.root_flow_id input.flow_results)

-- The flow identifiers of the loop, sorted.
abbrev sorted_flows : InputState → String → List String
sorted_flows input root = sort text_less (other_flows root input.flow_results)

-- All flows are kept, or the list is marked as cut.
complete_or_cut :
    (input : InputState) (root : String) (b : Bool)
    → ltb 16 (length (sorted_flows input root)) ≡ b
    → (b ≡ true)
      ⊎ Perm
          (map (λ f. f.id) (map (member_flow input) (take 16 (sorted_flows input root))))
          (other_flows root input.flow_results)
complete_or_cut input root true e = inl refl
complete_or_cut input root false e = inr (
    rw (ids-member_flow input (take 16 (sorted_flows input root)))
      (rw (take_all 16 (sorted_flows input root) (ground arith)) (sort-Perm text_less _)))

length-map : {A B : Type 0} (f : A → B) (xs : List A) → length (map f xs) ≡ length xs
length-map f [] = refl
length-map f (x ∷ xs) = ap (λ n. suc n) (length-map f xs)

module _ (state : StreamState) (input : InputState) (root : String)
    (only : input_at 0 state.inputs ≡ some input) (alone : length state.inputs ≡ 1)
    (root_id : input.root_flow_id ≡ some root) where
  abbrev made : FlowResult → IngestRunOutput
  made result = record {
    root_flow_id = root;
    source_id = result.source_id;
    member_flows = map (member_flow input) (take 16 (sorted_flows input root));
    member_flows_truncated = ltb 16 (length (sorted_flows input root));
  }

  IsOutputOf-made : (result : FlowResult) → IsOutputOf state (made result)
  IsOutputOf-made result = record {
    input = input;
    only = only;
    alone = alone;
    root = root_id;
    bounded = omega (
      arith,
      length-map (member_flow input) (take 16 (sorted_flows input root)),
      length-take 16 (sorted_flows input root),
    );
    complete = complete_or_cut input root _ refl;
  }

  IsOutputOf-root :
      (r : Option FlowResult) (o : IngestRunOutput)
      → output_of_root input root r ≡ some o
      → IsOutputOf state o
  unfolding output_of_root
  IsOutputOf-root none o e = ground arith
  IsOutputOf-root (some result) o e =
      subst (λ x. IsOutputOf state x)
        (ap (λ (x : Option IngestRunOutput). elim x [ none ↦ o | some y ↦ y ]) e)
        (IsOutputOf-made result)

IsOutputOf-root_id :
    (state : StreamState) (input : InputState) (r : Option String) (o : IngestRunOutput)
    → input_at 0 state.inputs ≡ some input
    → length state.inputs ≡ 1
    → input.root_flow_id ≡ r
    → output_of_root_id input r ≡ some o
    → IsOutputOf state o
unfolding output_of_root_id
IsOutputOf-root_id state input none o only alone root_id e = ground arith
IsOutputOf-root_id state input (some root) o only alone root_id e =
    IsOutputOf-root state input root only alone root_id _ o (rest _ refl e)
  where
    rest :
        (b : Bool)
        → (root == "") ≡ b
        → (if b then none else output_of_root input root (find root input.flow_results)) ≡ some o
        → output_of_root input root (find root input.flow_results) ≡ some o
    rest true h e = ground arith
    rest false h e = e

IsOutputOf-input :
    (state : StreamState) (i : Option InputState) (o : IngestRunOutput)
    → input_at 0 state.inputs ≡ i
    → length state.inputs ≡ 1
    → output_of_input i ≡ some o
    → IsOutputOf state o
IsOutputOf-input state none o only alone e = ground arith
IsOutputOf-input state (some input) o only alone e =
    IsOutputOf-root_id state input _ o only alone refl e

IsOutputOf-alone :
    (state : StreamState) (b : Bool) (o : IngestRunOutput)
    → nat_eq (length state.inputs) 1 ≡ b
    → (if b then output_of_input (input_at 0 state.inputs) else none) ≡ some o
    → IsOutputOf state o
IsOutputOf-alone state true o alone e = IsOutputOf-input state _ o refl (ground arith) e
IsOutputOf-alone state false o alone e = ground arith

-- An output that the status shows is that of the stream's only input and its root flow, with at most
-- 16 member flows; unless the list is marked as truncated, they are exactly the flows of the input
-- beside the root.
pub output_from_state-IsOutputOf :
    (state : StreamState) (o : IngestRunOutput)
    → output_from_state state ≡ some o
    → IsOutputOf state o
unfolding output_from_state
output_from_state-IsOutputOf state o e = IsOutputOf-alone state _ o refl e
