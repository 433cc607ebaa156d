-- ===== src/Ingest/Sources/Resolve.antt =====
-- The resolution of an ingest run's inputs, SourcePolicyResolver.Resolve, with the check of the
-- credential Secret (ingest_resolvers.go).
use Prim.Native.Char.{code}
use mathlib.Core.Bool.{not}
use tamoss.Base.{
  ℕ, String, ◌==◌, Bool, false, ◌&&◌, ◌||◌, Option, none, some, List, [], ◌∷◌, any, nat_eq,
  if◌then◌else◌,
}
use tamoss.Base.Assoc.{get}
use tamoss.Base.Int32.{at_least}
use tamoss.Base.Text.{trim_space, has_suffix}
use tamoss.Kube.{not_found, errorf, wrapf}
use tamoss.Effect.{Result, ok, err}
use tamoss.Ingest.Run.{IngestRunInput}
use tamoss.Ingest.Inputs.{ResolvedIngestInputs}
use tamoss.Ingest.Sources.{
  HttpSource, S3Source, IngestSource, IngestSpec, SourcePolicy, public_https, restricted_http,
  restricted_s3, Sources, and_then, wrapped, contains_any,
}
use tamoss.Ingest.Sources.Selectors.{
  validate_named_http_selector, validate_named_s3_selector, validate_resolved_host,
  validate_public_https_selector,
}

-- `strings.Cut(header, ":")`, the text before the colon if there is one.
unfoldable pub before_colon : String → Option String
before_colon String.[] = none
before_colon (String.◌∷◌ c s) =
    let rest = before_colon s in
    if nat_eq (code c) b':'
    then some ""
    else elim rest [ none ↦ none | some name ↦ some (String.◌∷◌ c name) ]

abbrev is_header_valid : String → Bool
is_header_valid header = elim (before_colon header) [
  | none ↦ false
  | some name ↦ not (trim_space name == "") && not (contains_any header "\r\n")
]

abbrev headers_checked : String → Result (List String) → Result (Unit {0})
headers_checked name (err e) = err (
    errorf "credential Secret %q key %s must be a non-empty JSON string array"
      (name ∷ "TAMSIN_SOURCE_HTTP_HEADERS" ∷ []))
headers_checked name (ok []) = err (
    errorf "credential Secret %q key %s must be a non-empty JSON string array"
      (name ∷ "TAMSIN_SOURCE_HTTP_HEADERS" ∷ []))
headers_checked name (ok (h ∷ hs)) =
    if any (λ header. not (is_header_valid header)) (h ∷ hs)
    then err (
        errorf "credential Secret %q key %s contains an invalid HTTP header"
          (name ∷ "TAMSIN_SOURCE_HTTP_HEADERS" ∷ []))
    else ok tt

-- The source that the map of the sources has under a name, once no name is duplicated.
unfoldable pub source_named : String → List IngestSource → Option IngestSource
source_named name [] = none
source_named name (s ∷ ss) =
    let rest = source_named name ss in if s.name == name then some s else rest

-- The loop that puts the sources into a map, with the names that are in it.
unfoldable pub duplicated : List String → List IngestSource → Option String
duplicated seen [] = none
duplicated seen (s ∷ ss) =
    let rest = duplicated (s.name ∷ seen) ss in
    if any (λ name. name == s.name) seen then some s.name else rest

abbrev secret_name : Option String → String
secret_name none = ""
secret_name (some name) = name

-- The mode of the source policy, `Disabled` if it is not set.
abbrev pub effective_mode : IngestSpec → String
effective_mode spec = if spec.mode == "" then "Disabled" else spec.mode

module _ (env : Sources) where
  abbrev checked_secret : String → String → Result (List (String × String)) → Result (Unit {0})
  checked_secret name kind (err not_found) =
      err (errorf "credential Secret %q does not exist" (name ∷ []))
  checked_secret name kind (err e) = err (wrapf "read credential Secret %q: %w" (name ∷ []) e)
  checked_secret name kind (ok data_of) =
      if kind == "HTTP"
      then (if get "TAMSIN_SOURCE_HTTP_HEADERS" data_of == ""
          then err (
              errorf "credential Secret %q does not contain %s"
                (name ∷ "TAMSIN_SOURCE_HTTP_HEADERS" ∷ []))
          else headers_checked name
              (env.unmarshal_headers (get "TAMSIN_SOURCE_HTTP_HEADERS" data_of)))
      else if kind == "S3"
      then (if get "AWS_ACCESS_KEY_ID" data_of == "" || get "AWS_SECRET_ACCESS_KEY" data_of == ""
          then err (
              errorf "credential Secret %q must contain %s and %s"
                (name ∷ "AWS_ACCESS_KEY_ID" ∷ "AWS_SECRET_ACCESS_KEY" ∷ []))
          else ok tt)
      else ok tt

  -- `validateCredentialSecret`.
  unfoldable pub validate_credential_secret : String → Option String → String → Result (Unit {0})
  unfolding get trim_space before_colon contains_any
  validate_credential_secret namespace none kind = ok tt
  validate_credential_secret namespace (some name) kind =
      if trim_space name == ""
      then err (errorf "credentialSecretRef.name must not be empty" [])
      else checked_secret name kind (env.secret_at namespace name)

  -- What is resolved, with the policy's snapshot as JSON.
  abbrev pub resolved_with :
      String → String → Option String → String → Option S3Source → String → ResolvedIngestInputs
  resolved_with selector source_name secret_ref kind s3 encoded = record {
    selectors = selector ∷ [];
    expected_inputs = elim s3 [ none ↦ 1 | some s ↦ if has_suffix selector "/" then 0 else 1 ];
    source_name = source_name;
    policy_digest = env.sha256_hex encoded;
    credential_secret_name = secret_name secret_ref;
    credential_kind = kind;
    s3_endpoint = elim s3 [ none ↦ "" | some s ↦ s.endpoint ];
    s3_region = elim s3 [ none ↦ "" | some s ↦ s.region ];
    s3_path_style = elim s3 [ none ↦ false | some s ↦ s.path_style ];
  }

  -- The policy's snapshot as JSON.
  abbrev pub encoded_snapshot :
      String → SourcePolicy → Option String → Option S3Source → Result String
  encoded_snapshot source_name policy secret_ref s3 = env.marshal (record {
    source_name = source_name;
    policy = policy;
    credential_secret_name = secret_name secret_ref;
    s3_region = elim s3 [ none ↦ "" | some s ↦ s.region ];
  })

  -- `resolvedSourcePolicy`.
  unfoldable pub resolved_source_policy :
      String
      → String
      → SourcePolicy
      → Option String
      → String
      → Option S3Source
      → Result ResolvedIngestInputs
  unfolding has_suffix
  resolved_source_policy selector source_name policy secret_ref kind s3 =
      and_then
        (wrapped "encode ingest source policy snapshot: %w"
          (encoded_snapshot source_name policy secret_ref s3))
        (λ encoded. ok (resolved_with selector source_name secret_ref kind s3 encoded))

  -- The case of an HTTP input.
  unfoldable pub resolve_http : String → String → String → HttpSource → Result ResolvedIngestInputs
  unfolding validate_named_http_selector validate_resolved_host validate_credential_secret
      resolved_source_policy
  resolve_http namespace uri name source =
      and_then (validate_named_http_selector env uri source) (λ selector.
        and_then
          (wrapped "HTTP source origin is not permitted: %w"
            (validate_resolved_host env source.origin source.allow_private_addresses))
          (λ host.
            and_then (validate_credential_secret namespace source.credential_secret_ref "HTTP")
              (λ secret.
                resolved_source_policy selector name
                  (restricted_http source.origin source.path_prefixes
                    source.allow_private_addresses)
                  source.credential_secret_ref "HTTP" none)))

  -- The case of an S3 input.
  unfoldable pub resolve_s3 : String → String → String → S3Source → Result ResolvedIngestInputs
  unfolding validate_named_s3_selector validate_resolved_host validate_credential_secret
      resolved_source_policy
  resolve_s3 namespace uri name source =
      and_then (validate_named_s3_selector env uri source) (λ selector.
        and_then
          (wrapped "S3 source endpoint is not permitted: %w"
            (validate_resolved_host env source.endpoint source.allow_private_addresses))
          (λ host.
            and_then (validate_credential_secret namespace source.credential_secret_ref "S3")
              (λ secret.
                resolved_source_policy selector name
                  (restricted_s3 source.endpoint source.bucket source.key_prefixes source.path_style
                    source.allow_private_addresses)
                  source.credential_secret_ref "S3" (some source))))

  -- An input without a reference to a source.
  unfoldable pub resolve_unnamed : String → IngestRunInput → Result ResolvedIngestInputs
  unfolding validate_public_https_selector resolved_source_policy
  resolve_unnamed mode input =
      if not (mode == "PublicHTTPS") || not (input.kind == "HTTP")
      then err (errorf "sourceRef is required by source policy mode %s" (mode ∷ []))
      else and_then (validate_public_https_selector env input.uri)
          (λ selector. resolved_source_policy selector "public-https" public_https none "" none)

  abbrev pub resolve_http_of :
      String
      → String
      → IngestSource
      → Option HttpSource
      → Option S3Source
      → Result ResolvedIngestInputs
  resolve_http_of namespace uri source (some http) none =
      resolve_http namespace uri source.name http
  resolve_http_of namespace uri source http s3 =
      err (errorf "HTTP ingest source %q has invalid configuration" (source.name ∷ []))

  abbrev pub resolve_s3_of :
      String
      → String
      → IngestSource
      → Option S3Source
      → Option HttpSource
      → Result ResolvedIngestInputs
  resolve_s3_of namespace uri source (some s3) none = resolve_s3 namespace uri source.name s3
  resolve_s3_of namespace uri source s3 http =
      err (errorf "S3 ingest source %q has invalid configuration" (source.name ∷ []))

  -- An input that refers to a source: what follows the look up of its name.
  unfoldable pub resolve_named :
      String → IngestRunInput → String → Option IngestSource → Result ResolvedIngestInputs
  unfolding resolve_http resolve_s3
  resolve_named namespace input name none =
      err (errorf "ingest source %q does not exist" (name ∷ []))
  resolve_named namespace input name (some source) =
      if not (input.kind == source.kind)
      then err (
          errorf "ingest source %q is kind %q, not %q"
            (source.name ∷ source.kind ∷ input.kind ∷ []))
      else if input.kind == "HTTP"
      then resolve_http_of namespace input.uri source source.http source.s3
      else if input.kind == "S3"
      then resolve_s3_of namespace input.uri source source.s3 source.http
      else err (errorf "unsupported ingest input kind %q" (input.kind ∷ []))

  -- The checks before the look up of a source, with the mode that is set.
  unfoldable pub resolve_by :
      String → String → List IngestSource → IngestRunInput → ℕ → Result ResolvedIngestInputs
  unfolding resolve_unnamed resolve_named duplicated source_named at_least
  resolve_by namespace mode sources input max_inputs =
      if mode == "Disabled"
      then err (errorf "ingest source policy is Disabled" [])
      else if not (at_least max_inputs 1)
      then err (errorf "maxInputs must be positive" [])
      else elim (duplicated [] sources) [
        | some name ↦ err (errorf "ingest source name %q is duplicated" (name ∷ []))
        | none ↦ elim input.source_ref [
          | none ↦ resolve_unnamed mode input
          | some name ↦ resolve_named namespace input name (source_named name sources)
        ]
      ]

  -- `SourcePolicyResolver.Resolve`.
  unfoldable pub resolve_source_policy :
      String → IngestSpec → IngestRunInput → ℕ → Result ResolvedIngestInputs
  unfolding resolve_by
  resolve_source_policy namespace spec input max_inputs =
      resolve_by namespace (effective_mode spec) spec.sources input max_inputs
