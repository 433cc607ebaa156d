-- ===== src/Ingest/Sources/Selectors.antt =====
-- The checks on the selector of an ingest run, on the configuration of a source and on the host
-- that a name resolves to (ingest_resolvers.go).
use Prim.Native.String.{◌++◌}
use mathlib.Core.Bool.{not}
use tamoss.Base.{
  String, ◌==◌, Bool, false, ◌&&◌, ◌||◌, none, some, List, [], ◌∷◌, any, all, ltb, if◌then◌else◌,
}
use tamoss.Base.Text.{trim_space, trim_suffix, has_prefix, clean}
use tamoss.Base.Text.Bytes.{byte_length}
use tamoss.Kube.{errorf, wrapf}
use tamoss.Effect.{Result, ok, err}
use tamoss.Ingest.Sources.{
  HttpSource, S3Source, RequestUrl, IpAddress, Sources, and_then, wrapped, trim_prefix,
  contains_any, is_public_ingest_address, matches_path_prefix, matches_key_prefix, has_extras,
  has_path,
}

abbrev pub parsed_selector : String → Result RequestUrl → Result RequestUrl
parsed_selector scheme (err e) = err (errorf "input URI must be an absolute %s URI" (scheme ∷ []))
parsed_selector scheme (ok u) =
    if not (u.scheme == scheme) || u.host == ""
    then err (errorf "input URI must be an absolute %s URI" (scheme ∷ []))
    else if has_extras u
    then err (errorf "input URI must not contain user information, a query, or a fragment" [])
    else ok u

abbrev pub parsed_endpoint : Result RequestUrl → Result RequestUrl
parsed_endpoint (err e) = err (errorf "must be an absolute HTTPS URL" [])
parsed_endpoint (ok u) =
    if not (u.scheme == "https") || u.host == ""
    then err (errorf "must be an absolute HTTPS URL" [])
    else if has_extras u
    then err (errorf "must not contain user information, a query, or a fragment" [])
    else ok u

abbrev pub or_root : String → String
or_root s = if s == "" then "/" else s

abbrev pub canonical_decoded : Result String → Result String
canonical_decoded (err e) = err (errorf "HTTP input path is not canonical" [])
canonical_decoded (ok decoded) =
    let normalised = clean ("/" ++ trim_prefix decoded "/") in
    if contains_any decoded "\\"
    then err (errorf "HTTP input path is not canonical" [])
    else if not (normalised == or_root (trim_suffix decoded "/"))
    then err (errorf "HTTP input path must not contain dot segments" [])
    else ok normalised

abbrev pub bad_key_prefix : String → Bool
bad_key_prefix p = p == "" || has_prefix p "/" || contains_any p "?#"

abbrev pub host_allowed : Bool → String → Result (List IpAddress) → Result (Unit {0})
host_allowed allow_private host (err e) = err (wrapf "resolve host %q: %w" (host ∷ []) e)
host_allowed allow_private host (ok []) =
    err (errorf "host %q resolved to no addresses" (host ∷ []))
host_allowed allow_private host (ok (a ∷ rest)) =
    if allow_private
    then ok tt
    else if all is_public_ingest_address (a ∷ rest)
    then ok tt
    else err (errorf "host %q resolves to a non-public address" (host ∷ []))

module _ (env : Sources) where
  -- `validateIngestSelectorURL`.
  unfoldable pub validate_ingest_selector_url : String → String → Result RequestUrl
  unfolding byte_length
  validate_ingest_selector_url raw scheme =
      if ltb 2048 (byte_length raw)
      then err (errorf "input URI exceeds 2048 bytes" [])
      else parsed_selector scheme (env.parse_request_uri raw)

  -- `validateSourceEndpoint`.
  unfoldable pub validate_source_endpoint : String → Result RequestUrl
  validate_source_endpoint raw = parsed_endpoint (env.parse_request_uri raw)

  -- `canonicalHTTPPath`.
  unfoldable pub canonical_http_path : String → Result String
  unfolding clean trim_prefix trim_suffix contains_any
  canonical_http_path escaped = canonical_decoded (env.path_unescape escaped)

  -- The loop over the path prefixes of a source.
  unfoldable pub canonical_prefixes : List String → Result (List String)
  unfolding canonical_http_path has_prefix
  canonical_prefixes [] = ok []
  canonical_prefixes (p ∷ ps) =
      let rest = canonical_prefixes ps in
      if not (has_prefix p "/")
      then err (errorf "HTTP source path prefixes must start with /" [])
      else and_then (wrapped "invalid HTTP source path prefix: %w" (canonical_http_path p))
          (λ c. and_then rest (λ cs. ok (c ∷ cs)))

  -- The checks behind those of the selector and the origin.
  unfoldable pub within_origin : HttpSource → RequestUrl → RequestUrl → Result String
  unfolding canonical_http_path canonical_prefixes matches_path_prefix
  within_origin source selector origin =
      if has_path origin
      then err (errorf "HTTP source origin must not contain a path" [])
      else if not (env.equal_fold selector.scheme origin.scheme)
          || not (env.equal_fold selector.host origin.host)
      then err (errorf "HTTP input is outside source origin %q" (source.origin ∷ []))
      else and_then (canonical_http_path selector.escaped_path) (λ p.
        and_then (canonical_prefixes source.path_prefixes) (λ prefixes.
          if not (matches_path_prefix p prefixes)
          then err (errorf "HTTP input path is outside the source path prefixes" [])
          else ok selector.text))

  -- `validateNamedHTTPSelector`.
  unfoldable pub validate_named_http_selector : String → HttpSource → Result String
  unfolding validate_ingest_selector_url validate_source_endpoint within_origin
  validate_named_http_selector raw source =
      and_then (validate_ingest_selector_url raw "https") (λ selector.
        and_then (wrapped "invalid HTTP source origin: %w" (validate_source_endpoint source.origin))
          (λ origin. within_origin source selector origin))

  -- The checks on the bucket and the key of a selector, and on the endpoint.
  unfoldable pub within_bucket : S3Source → RequestUrl → Result String
  unfolding validate_source_endpoint matches_key_prefix trim_prefix
  within_bucket source selector =
      let key = trim_prefix selector.escaped_path "/" in
      if not (selector.host == source.bucket)
      then err (
          errorf "S3 input bucket %q does not match source bucket %q"
            (selector.host ∷ source.bucket ∷ []))
      else if key == ""
      then err (errorf "S3 input must select an object or bounded prefix" [])
      else if not (matches_key_prefix key source.key_prefixes)
      then err (errorf "S3 input key is outside the source key prefixes" [])
      else and_then
          (wrapped "invalid S3 source endpoint: %w" (validate_source_endpoint source.endpoint))
          (λ endpoint.
            if has_path endpoint
            then err (errorf "invalid S3 source endpoint: path is not permitted" [])
            else ok selector.text)

  -- `validateNamedS3Selector`.
  unfoldable pub validate_named_s3_selector : String → S3Source → Result String
  unfolding validate_ingest_selector_url within_bucket trim_space contains_any has_prefix
  validate_named_s3_selector raw source =
      if trim_space source.region == ""
      then err (errorf "S3 source region must not be empty" [])
      else if trim_space source.bucket == "" || contains_any source.bucket "/@?# "
      then err (errorf "S3 source bucket is invalid" [])
      else if any bad_key_prefix source.key_prefixes
      then err (
          errorf
            "S3 source key prefixes must be non-empty relative keys without queries or fragments"
            [])
      else and_then (validate_ingest_selector_url raw "s3")
          (λ selector. within_bucket source selector)

  -- What `validateResolvedHost` does with a URL that has been parsed.
  abbrev pub resolved_host : Bool → Result RequestUrl → Result (Unit {0})
  resolved_host allow_private (err e) = err (errorf "host is invalid" [])
  resolved_host allow_private (ok u) =
      if u.hostname == ""
      then err (errorf "host is invalid" [])
      else elim (env.parse_ip u.hostname) [
        | some ip ↦
            if not allow_private && not (is_public_ingest_address ip)
            then err (errorf "host resolves to a non-public address" [])
            else ok tt
        | none ↦ host_allowed allow_private u.hostname (env.lookup_ip_addr u.hostname)
      ]

  -- `validateResolvedHost`.
  unfoldable pub validate_resolved_host : String → Bool → Result (Unit {0})
  unfolding is_public_ingest_address
  validate_resolved_host raw allow_private = resolved_host allow_private (env.parse_request_uri raw)

  -- `validatePublicHTTPSSelector`.
  unfoldable pub validate_public_https_selector : String → Result String
  unfolding validate_ingest_selector_url validate_resolved_host
  validate_public_https_selector raw = and_then (validate_ingest_selector_url raw "https") (λ u.
      if not (u.port == "") && not (u.port == "443")
      then err (errorf "public HTTPS input must use port 443" [])
      else and_then
          (wrapped "public HTTPS input is not permitted: %w" (validate_resolved_host u.text false))
          (λ done. ok u.text))
