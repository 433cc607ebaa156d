-- ===== src/Ingest/Sources/Policy.antt =====
-- What the inputs that SourcePolicyResolver.Resolve lets through have in common.
use tamoss.Base.{
  ℕ, String, ◌==◌, ◌≡◌, refl, sym, ◌∙◌, ap, Bool, true, false, not, ◌&&◌, ◌||◌, ◌⊎◌, inl, inr,
  Option, none, some, List, [], ◌∷◌, arith, eq_iff, if◌then◌else◌,
}
use tamoss.Base.Int32.{at_least}
use tamoss.Kube.{Error, errorf}
use tamoss.Effect.{Result, ok, err}
use tamoss.Ingest.Run.{IngestRunInput}
use tamoss.Ingest.Inputs.{ResolvedIngestInputs}
use tamoss.Ingest.Sources.{
  HttpSource, S3Source, IngestSource, IngestSpec, SourcePolicy, public_https, restricted_http,
  restricted_s3, RequestUrl, Sources, and_then, wrapped,
}
use tamoss.Ingest.Sources.Selectors.{
  validate_ingest_selector_url, validate_named_http_selector, validate_named_s3_selector,
  validate_resolved_host, validate_public_https_selector,
}
use tamoss.Ingest.Sources.Resolve.{
  validate_credential_secret, resolved_source_policy, encoded_snapshot, resolved_with, resolve_http,
  resolve_s3, resolve_unnamed, resolve_http_of, resolve_s3_of, resolve_named, resolve_by,
  effective_mode, resolve_source_policy, source_named, duplicated,
}
use tamoss.Ingest.Sources.Approval.{
  passed, followed, unwrapped, unnegated, neither, ok_inj, IsLocation, IsHostAllowed, IsInBucket,
  IsInOrigin, IsHostAllowed-resolved, IsInBucket-selector, IsInOrigin-selector, IsLocation-selector,
}

module _ (env : Sources) where
  -- The only selector is a location of the HTTP source, whose own host is allowed.
  unfoldable pub IsHttpInput : String → ResolvedIngestInputs → HttpSource → Type 0
  IsHttpInput uri r source =
      (s : String) × (r.selectors ≡ s ∷ [])
      × IsInOrigin env source uri s
      × IsHostAllowed env source.allow_private_addresses source.origin

  -- The only selector is a location of the S3 source, whose own host is allowed.
  unfoldable pub IsS3Input : String → ResolvedIngestInputs → S3Source → Type 0
  IsS3Input uri r source =
      (s : String) × (r.selectors ≡ s ∷ [])
      × IsInBucket env source uri s
      × IsHostAllowed env source.allow_private_addresses source.endpoint

  -- The only selector is a location on a public host.
  unfoldable pub IsPublicInput : String → ResolvedIngestInputs → Type 0
  IsPublicInput uri r =
      (u : RequestUrl) × (r.selectors ≡ u.text ∷ [])
      × IsLocation env "https" uri u
      × IsHostAllowed env false u.text

  selected :
      (s n k : String) (policy : SourcePolicy) (secret : Option String) (s3 : Option S3Source)
      (r : ResolvedIngestInputs)
      → resolved_source_policy env s n policy secret k s3 ≡ ok r
      → r.selectors ≡ s ∷ []
  unfolding resolved_source_policy
  selected s n k policy secret s3 r h =
      let (encoded, _, e) =
        followed
          (wrapped "encode ingest source policy snapshot: %w"
            (encoded_snapshot env n policy secret s3))
          (λ encoded. ok (resolved_with env s n secret k s3 encoded)) r h in
      sym (
        ap (λ (x : ResolvedIngestInputs). x.selectors)
          (ok_inj (resolved_with env s n secret k s3 encoded) r e))

  IsHttpInput-resolve :
      (namespace uri name : String) (source : HttpSource) (r : ResolvedIngestInputs)
      → resolve_http env namespace uri name source ≡ ok r
      → IsHttpInput uri r source
  unfolding resolve_http IsHttpInput
  IsHttpInput-resolve namespace uri name source r h =
      let (s, located, h1) =
        followed (validate_named_http_selector env uri source) (λ s. behind s) r h in
      let (x, allowed, h2) =
        followed
          (wrapped "HTTP source origin is not permitted: %w"
            (validate_resolved_host env source.origin source.allow_private_addresses))
          (λ host. last s) r h1 in
      let (_, _, h3) =
        followed (validate_credential_secret env namespace source.credential_secret_ref "HTTP")
          (λ secret. final s) r h2 in
      (
        s,
        selected s name "HTTP" _ source.credential_secret_ref none r h3,
        IsInOrigin-selector env source uri s located,
        IsHostAllowed-resolved env source.origin _ x (unwrapped _ _ x allowed),
      )
    where
      final : String → Result ResolvedIngestInputs
      final s =
          resolved_source_policy env s name
            (restricted_http source.origin source.path_prefixes source.allow_private_addresses)
            source.credential_secret_ref "HTTP" none

      last : String → Result ResolvedIngestInputs
      last s =
          and_then (validate_credential_secret env namespace source.credential_secret_ref "HTTP")
            (λ secret. final s)

      behind : String → Result ResolvedIngestInputs
      behind s =
          and_then
            (wrapped "HTTP source origin is not permitted: %w"
              (validate_resolved_host env source.origin source.allow_private_addresses))
            (λ host. last s)

  IsS3Input-resolve :
      (namespace uri name : String) (source : S3Source) (r : ResolvedIngestInputs)
      → resolve_s3 env namespace uri name source ≡ ok r
      → IsS3Input uri r source
  unfolding resolve_s3 IsS3Input
  IsS3Input-resolve namespace uri name source r h =
      let (s, located, h1) =
        followed (validate_named_s3_selector env uri source) (λ s. behind s) r h in
      let (x, allowed, h2) =
        followed
          (wrapped "S3 source endpoint is not permitted: %w"
            (validate_resolved_host env source.endpoint source.allow_private_addresses))
          (λ host. last s) r h1 in
      let (_, _, h3) =
        followed (validate_credential_secret env namespace source.credential_secret_ref "S3")
          (λ secret. final s) r h2 in
      (
        s,
        selected s name "S3" _ source.credential_secret_ref (some source) r h3,
        IsInBucket-selector env source uri s located,
        IsHostAllowed-resolved env source.endpoint _ x (unwrapped _ _ x allowed),
      )
    where
      final : String → Result ResolvedIngestInputs
      final s =
          resolved_source_policy env s name
            (restricted_s3 source.endpoint source.bucket source.key_prefixes source.path_style
              source.allow_private_addresses)
            source.credential_secret_ref "S3" (some source)

      last : String → Result ResolvedIngestInputs
      last s =
          and_then (validate_credential_secret env namespace source.credential_secret_ref "S3")
            (λ secret. final s)

      behind : String → Result ResolvedIngestInputs
      behind s =
          and_then
            (wrapped "S3 source endpoint is not permitted: %w"
              (validate_resolved_host env source.endpoint source.allow_private_addresses))
            (λ host. last s)

  IsPublicInput-resolve :
      (mode : String) (input : IngestRunInput) (r : ResolvedIngestInputs)
      → resolve_unnamed env mode input ≡ ok r
      → (mode ≡ "PublicHTTPS") × IsPublicInput input.uri r
  unfolding resolve_unnamed validate_public_https_selector IsPublicInput
  IsPublicInput-resolve mode input r h =
      let (named, h1) =
        passed (not (mode == "PublicHTTPS") || not (input.kind == "HTTP")) _ _ r h in
      let (s, located, h2) =
        followed (validate_public_https_selector env input.uri)
          (λ s. resolved_source_policy env s "public-https" public_https none "" none) r h1 in
      let (u, e, h3) =
        followed (validate_ingest_selector_url env input.uri "https") (λ u. behind u) s located in
      let (_, h4) = passed (not (u.port == "") && not (u.port == "443")) _ (last u) s h3 in
      let (x, allowed, h5) =
        followed
          (wrapped "public HTTPS input is not permitted: %w"
            (validate_resolved_host env u.text false))
          (λ done. ok u.text) s h4 in
      (
        (eq_iff mode "PublicHTTPS").0 (unnegated _ (neither _ _ named).0),
        (
          u,
          selected s "public-https" "" public_https none none r h2
              ∙ ap (λ x. x ∷ []) (sym (ok_inj u.text s h5)),
          IsLocation-selector env "https" input.uri u e,
          IsHostAllowed-resolved env u.text false x (unwrapped _ _ x allowed),
        ),
      )
    where
      last : RequestUrl → Result String
      last u =
          and_then
            (wrapped "public HTTPS input is not permitted: %w"
              (validate_resolved_host env u.text false))
            (λ done. ok u.text)

      behind : RequestUrl → Result String
      behind u =
          if not (u.port == "") && not (u.port == "443")
          then err (errorf "public HTTPS input must use port 443" [])
          else last u

  -- The input is one of the source's, which is of exactly one kind.
  unfoldable pub IsOfSource : IngestRunInput → ResolvedIngestInputs → IngestSource → Type 0
  IsOfSource input r source =
      ((http : HttpSource) × (source.http ≡ some http)
        × (source.s3 ≡ none)
        × IsHttpInput input.uri r http)
      ⊎ ((s3 : S3Source) × (source.s3 ≡ some s3) × (source.http ≡ none) × IsS3Input input.uri r s3)

  http_of :
      (namespace uri : String) (source : IngestSource) (http : Option HttpSource)
      (s3 : Option S3Source) (r : ResolvedIngestInputs)
      → resolve_http_of env namespace uri source http s3 ≡ ok r
      → (h : HttpSource) × (http ≡ some h) × (s3 ≡ none) × IsHttpInput uri r h
  http_of namespace uri source none s3 r h = ground arith
  http_of namespace uri source (some x) (some y) r h = ground arith
  http_of namespace uri source (some x) none r h =
      (x, refl, refl, IsHttpInput-resolve namespace uri source.name x r h)

  s3_of :
      (namespace uri : String) (source : IngestSource) (s3 : Option S3Source)
      (http : Option HttpSource) (r : ResolvedIngestInputs)
      → resolve_s3_of env namespace uri source s3 http ≡ ok r
      → (s : S3Source) × (s3 ≡ some s) × (http ≡ none) × IsS3Input uri r s
  s3_of namespace uri source none http r h = ground arith
  s3_of namespace uri source (some x) (some y) r h = ground arith
  s3_of namespace uri source (some x) none r h =
      (x, refl, refl, IsS3Input-resolve namespace uri source.name x r h)

  by_kind :
      (is_http is_s3 : Bool) (e : Error) (namespace : String) (input : IngestRunInput)
      (source : IngestSource) (r : ResolvedIngestInputs)
      → (if is_http
          then resolve_http_of env namespace input.uri source source.http source.s3
          else if is_s3
          then resolve_s3_of env namespace input.uri source source.s3 source.http
          else err e)
        ≡ ok r
      → IsOfSource input r source
  unfolding IsOfSource
  by_kind true is_s3 e namespace input source r h =
      inl (http_of namespace input.uri source source.http source.s3 r h)
  by_kind false true e namespace input source r h =
      inr (s3_of namespace input.uri source source.s3 source.http r h)
  by_kind false false e namespace input source r h = ground arith

  IsOfSource-named :
      (namespace : String) (input : IngestRunInput) (name : String) (found : Option IngestSource)
      (r : ResolvedIngestInputs)
      → resolve_named env namespace input name found ≡ ok r
      → (source : IngestSource) × (found ≡ some source)
        × (input.kind ≡ source.kind)
        × IsOfSource input r source
  unfolding resolve_named
  IsOfSource-named namespace input name none r h = ground arith
  IsOfSource-named namespace input name (some source) r h =
      let (kind, h1) = passed (not (input.kind == source.kind)) _ _ r h in
      (
        source,
        refl,
        (eq_iff input.kind source.kind).0 (unnegated _ kind),
        by_kind (input.kind == "HTTP") (input.kind == "S3") _ namespace input source r h1,
      )

  -- What the source policy of an instance lets through of an input.
  unfoldable pub IsApproved :
      String → List IngestSource → IngestRunInput → ResolvedIngestInputs → Type 0
  IsApproved mode sources input r =
      ((input.source_ref ≡ none) × (mode ≡ "PublicHTTPS") × IsPublicInput input.uri r)
      ⊎ ((name : String) × (source : IngestSource) × (input.source_ref ≡ some name)
          × (source_named name sources ≡ some source)
          × (input.kind ≡ source.kind)
          × IsOfSource input r source)

  IsApproved-ref :
      (namespace mode : String) (sources : List IngestSource) (input : IngestRunInput)
      (ref : Option String) (r : ResolvedIngestInputs)
      → input.source_ref ≡ ref
      → elim ref [
        | none ↦ resolve_unnamed env mode input
        | some name ↦ resolve_named env namespace input name (source_named name sources)
      ]
        ≡ ok r
      → IsApproved mode sources input r
  unfolding IsApproved
  IsApproved-ref namespace mode sources input none r p h =
      let (public, approved) = IsPublicInput-resolve mode input r h in inl (p, public, approved)
  IsApproved-ref namespace mode sources input (some name) r p h =
      let (source, found, kind, approved) = IsOfSource-named namespace input name _ r h in
      inr (name, source, p, found, kind, approved)

  IsApproved-duplicated :
      (namespace mode : String) (sources : List IngestSource) (input : IngestRunInput)
      (found : Option String) (e : String → Error) (r : ResolvedIngestInputs)
      → elim found [
        | some name ↦ err (e name)
        | none ↦ elim input.source_ref [
          | none ↦ resolve_unnamed env mode input
          | some name ↦ resolve_named env namespace input name (source_named name sources)
        ]
      ]
        ≡ ok r
      → IsApproved mode sources input r
  IsApproved-duplicated namespace mode sources input (some name) e r h = ground arith
  IsApproved-duplicated namespace mode sources input none e r h =
      IsApproved-ref namespace mode sources input _ r refl h

  -- The same behind the checks of the mode and of the names.
  resolve_by-IsApproved :
      (namespace mode : String) (sources : List IngestSource) (input : IngestRunInput)
      (max_inputs : ℕ) (r : ResolvedIngestInputs)
      → resolve_by env namespace mode sources input max_inputs ≡ ok r
      → ((mode == "Disabled") ≡ false) × IsApproved mode sources input r
  unfolding resolve_by
  resolve_by-IsApproved namespace mode sources input max_inputs r h =
      let (enabled, h1) = passed (mode == "Disabled") _ _ r h in
      let (_, h2) = passed (not (at_least max_inputs 1)) _ _ r h1 in
      (enabled, IsApproved-duplicated namespace mode sources input (duplicated [] sources) _ r h2)

  -- Inputs are resolved only if the source policy is not Disabled, and then to a single selector:
  -- without a source, a location on a public host if the policy is PublicHTTPS; with a source of the
  -- instance, of the input's kind, a location in its origin or bucket and under one of its prefixes,
  -- and the host of the source is public unless it allows private addresses.
  pub resolve_source_policy-IsApproved :
      (namespace : String) (spec : IngestSpec) (input : IngestRunInput) (max_inputs : ℕ)
      (r : ResolvedIngestInputs)
      → resolve_source_policy env namespace spec input max_inputs ≡ ok r
      → ((effective_mode spec == "Disabled") ≡ false)
        × IsApproved (effective_mode spec) spec.sources input r
  unfolding resolve_source_policy
  resolve_source_policy-IsApproved namespace spec input max_inputs r h =
      resolve_by-IsApproved namespace (effective_mode spec) spec.sources input max_inputs r h
