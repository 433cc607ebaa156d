-- ===== src/Ingest/Output.antt =====
-- operator/api/v1alpha1/ingestrun_output.go and storagebackend_tags.go: the metadata that a run asks
-- for on the Flows that it makes. encoding/json is a parameter.
use tamoss.Base.{
  String, ◌==◌, Bool, true, false, ◌&&◌, Option, none, some, List, [], ◌∷◌, ◌++◌, all, ltb,
  if◌then◌else◌,
}
use tamoss.Base.Assoc.{Assoc}
use tamoss.Base.Text.{has_prefix}
use tamoss.Base.Text.Bytes.{byte_length}
use tamoss.Kube.{Error, errorf, wrapf}
use tamoss.Effect.{Result, ok, err}
use tamoss.Ingest.Run.{FlowMetadata}

-- A JSON value as `json.Unmarshal` into an `any` makes it: an array by whether each item is a text.
pub data JsonValue : Type 0 where
  json_string : JsonValue
  json_array : List Bool → JsonValue
  json_other : JsonValue

-- A field of the object that is encoded.
pub data JsonField : Type 0 where
  json_text : String → JsonField
  json_raw : Assoc String → JsonField

-- `has_reserved_prefix` is `strings.HasPrefix(strings.ToLower(key), "_tamsin_")`.
pub record Json : Type 0 where
  pub unmarshal : String → Result JsonValue
  pub marshal : Assoc JsonField → Result String
  pub to_lower : String → String
  -- `slices.Sorted(maps.Keys(m))`, with the values.
  pub sorted : Assoc String → Assoc String

module _ (json : Json) where
  -- The switch in the loop of `ValidateTAMSTags`.
  abbrev tag_error : String → Result JsonValue → Option Error
  tag_error key (err e) = some (wrapf "tag %q contains invalid JSON: %w" (key ∷ []) e)
  tag_error key (ok json_string) = none
  tag_error key (ok (json_array items)) =
      if all (λ is_text. is_text) items
      then none
      else some (errorf "tag %q must contain only strings" (key ∷ []))
  tag_error key (ok json_other) =
      some (errorf "tag %q must be a string or an array of strings" (key ∷ []))

  -- The loop of `ValidateTAMSTags`, over the sorted keys.
  unfoldable pub tags_error : Assoc String → Option Error
  tags_error [] = none
  tags_error ((key, raw) ∷ tags) = elim (tag_error key (json.unmarshal raw)) [
    | some e ↦ some e
    | none ↦ tags_error tags
  ]

  -- `ValidateTAMSTags`.
  unfoldable pub validate_tams_tags : Assoc String → Option Error
  unfolding tags_error
  validate_tams_tags tags = tags_error (json.sorted tags)

  -- The first tag whose key is reserved.
  unfoldable pub reserved_tag : Assoc String → Option Error
  unfolding has_prefix
  reserved_tag [] = none
  reserved_tag ((key, raw) ∷ tags) =
      if has_prefix (json.to_lower key) "_tamsin_"
      then some (errorf "tag %q uses the reserved _tamsin_ prefix" (key ∷ []))
      else reserved_tag tags

  abbrev text_field : String → String → Assoc JsonField
  text_field key value = if value == "" then [] else (key, json_text value) ∷ []

  abbrev tags_field : Assoc String → Assoc JsonField
  tags_field [] = []
  tags_field (t ∷ tags) = ("tags", json_raw (t ∷ tags)) ∷ []

  abbrev encoded : Result String → Result String
  encoded (ok s) = ok s
  encoded (err e) = err (wrapf "encode Flow metadata: %w" [] e)

  -- `IngestRunFlowMetadataJSON`.
  unfoldable pub flow_metadata_json : Option FlowMetadata → Result String
  flow_metadata_json none = ok ""
  flow_metadata_json (some m) = encoded (
      json.marshal (
        text_field "label" m.label
        ++ (text_field "description" m.description ++ tags_field m.tags)))

  abbrev size_error : Result String → Option Error
  size_error (err e) = some e
  size_error (ok s) =
      if ltb 16384 (byte_length s)
      then some (errorf "flow metadata exceeds %d bytes" ("16384" ∷ []))
      else none

  abbrev is_empty : FlowMetadata → Bool
  is_empty m = m.label == "" && m.description == "" && elim m.tags [ [] ↦ true | _ ∷ _ ↦ false ]

  -- `ValidateIngestRunOutput`: the error, if there is one.
  unfoldable pub validate_output : Option FlowMetadata → Option Error
  unfolding validate_tams_tags reserved_tag flow_metadata_json byte_length
  validate_output none = none
  validate_output (some m) =
      if is_empty m
      then some (errorf "flowMetadata must set label, description, or tags" [])
      else elim (reserved_tag m.tags) [
        | some e ↦ some e
        | none ↦ elim (validate_tams_tags m.tags) [
          | some e ↦ some e
          | none ↦ size_error (flow_metadata_json (some m))
        ]
      ]
