-- ===== src/Ingest/Inputs.antt =====
-- The checks on what the resolver of a source policy and the resolver of the endpoint hand over
-- (ingestrun_controller.go). net/url is a parameter.
use Prim.Native.Char.{Char, code}
use mathlib.Core.Bool.{not}
use tamoss.Base.{
  ℕ, String, ◌==◌, ◌+◌, Bool, ◌&&◌, ◌||◌, Option, none, some, List, [], ◌∷◌, leb, ltb, length,
  nat_eq, if◌then◌else◌,
}
use tamoss.Base.Int32.{at_least, decimal, half}
use tamoss.Base.Text.{trim_space}
use tamoss.Base.Text.Bytes.{byte_length, all_chars}
use tamoss.Kube.{Error, errorf}
use tamoss.Effect.{Result, ok, err}

-- `ResolvedIngestInputs`; `expected_inputs` has the bits of an `int32`.
pub record ResolvedIngestInputs : Type 0 where
  pub selectors : List String
  pub expected_inputs : ℕ
  pub source_name : String
  pub policy_digest : String
  pub credential_secret_name : String
  pub credential_kind : String
  pub s3_endpoint : String
  pub s3_region : String
  pub s3_path_style : Bool

-- `url.URL`, with its scheme in lower case as `url.Parse` leaves it, and its text.
pub record Url : Type 0 where
  pub scheme : String
  pub has_user : Bool
  pub host : String
  pub path : String
  pub raw_query : String
  pub fragment : String
  pub text : String

abbrev pub max_ingest_selectors : ℕ
max_ingest_selectors = 32

abbrev pub max_ingest_selector_bytes : ℕ
max_ingest_selector_bytes = 32768

abbrev is_hex : Char → Bool
is_hex c =
    let n = code c in
    leb b'0' n && leb n b'9' || leb b'a' n && leb n b'f' || leb b'A' n && leb n b'F'

-- `hex.DecodeString` gives the 32 bytes of a SHA-256.
unfoldable pub is_digest : String → Bool
unfolding all_chars byte_length
is_digest s = all_chars is_hex s && nat_eq (byte_length s) 64

-- `strings.Trim(path, "/") == ""`.
unfoldable pub is_slashes : String → Bool
unfolding all_chars
is_slashes s = all_chars (λ c. nat_eq (code c) b'/') s

-- The switch on the scheme of a selector.
unfoldable pub location_error : Url → Option Error
unfolding is_slashes
location_error u =
    if u.scheme == "s3"
    then (if u.host == "" || is_slashes u.path
        then some (errorf "S3 input location requires a bucket and object key" [])
        else none)
    else if u.scheme == "https"
    then (if u.host == "" then some (errorf "HTTP input location requires a host" []) else none)
    else some (errorf "unsupported input location scheme %q" (u.scheme ∷ []))

unfoldable pub url_error : Result Url → Option Error
unfolding location_error
url_error (err e) = some (errorf "input selector is not an absolute URL" [])
url_error (ok u) =
    if u.scheme == ""
    then some (errorf "input selector is not an absolute URL" [])
    else if u.has_user || not (u.raw_query == "") || not (u.fragment == "")
    then some (errorf "input selector contains credentials, query parameters, or a fragment" [])
    else location_error u

module _ (parse_url : String → Result Url) where
  -- The loop over the selectors, with the bytes counted so far.
  unfoldable pub selectors_error : ℕ → List String → Option Error
  unfolding url_error byte_length
  selectors_error total [] = none
  selectors_error total (s ∷ ss) =
      let rest = selectors_error (total + byte_length s) ss in
      if ltb 2048 (byte_length s)
      then some (errorf "input selector exceeds 2048 bytes" [])
      else if ltb max_ingest_selector_bytes (total + byte_length s)
      then some (errorf "input selectors exceed %d bytes" ("32768" ∷ []))
      else elim (url_error (parse_url s)) [ some e ↦ some e | none ↦ rest ]

  -- `validateResolvedIngestInputs`: the error, if there is one.
  unfoldable pub inputs_error : ResolvedIngestInputs → ℕ → Option Error
  unfolding selectors_error is_digest at_least trim_space decimal
  inputs_error r max_inputs =
      if nat_eq (length r.selectors) 0
      then some (errorf "no input selectors" [])
      else if ltb max_ingest_selectors (length r.selectors)
      then some (
          errorf "resolved %d top-level selectors, limit is %d"
            (decimal (length r.selectors) ∷ "32" ∷ []))
      else if leb half r.expected_inputs || not (at_least max_inputs r.expected_inputs)
      then some (
          errorf "expected input count %d exceeds limit %d"
            (decimal r.expected_inputs ∷ decimal max_inputs ∷ []))
      else if trim_space r.source_name == ""
      then some (errorf "resolved source policy is incomplete" [])
      else if not (is_digest r.policy_digest)
      then some (errorf "resolved source policy digest is invalid" [])
      else selectors_error 0 r.selectors

  abbrev approved_endpoint : Result Url → Option String
  approved_endpoint (err e) = none
  approved_endpoint (ok u) =
      if not (u.scheme == "https")
        || u.host == ""
        || u.has_user
        || not (u.raw_query == "")
        || not (u.fragment == "")
      then none
      else some u.text

  -- `validateIngestEndpoint`: the endpoint's text, or none for its only error.
  unfoldable pub validate_ingest_endpoint : String → Option String
  unfolding trim_space
  validate_ingest_endpoint endpoint = approved_endpoint (parse_url (trim_space endpoint))
