-- ===== src/Ingest/Sources/Approval.antt =====
-- What a resolved input has been checked against.
use tamoss.Base.{
  String, ◌==◌, ◌≡◌, refl, sym, Bool, true, false, not, ◌&&◌, ◌||◌, ◌⊎◌, inl, inr, Option, none,
  some, List, [], ◌∷◌, all, any, arith, eq_iff, if◌then◌else◌,
}
use tamoss.Base.Text.{trim_space}
use tamoss.Kube.{Error, errorf}
use tamoss.Effect.{Result, ok, err}
use tamoss.Ingest.Sources.{
  HttpSource, S3Source, RequestUrl, IpAddress, Sources, and_then, wrapped, contains_any,
  trim_prefix, is_public_ingest_address, matches_path_prefix, matches_key_prefix, has_path,
  has_extras,
}
use tamoss.Ingest.Sources.Selectors.{
  parsed_selector, bad_key_prefix, parsed_endpoint, validate_ingest_selector_url,
  validate_source_endpoint, canonical_http_path, canonical_prefixes, within_origin,
  validate_named_http_selector, within_bucket, validate_named_s3_selector, validate_resolved_host,
  host_allowed, resolved_host,
}

-- Inversions of the steps of a check.
pub ok_inj : {A : Type 0} (a b : A) → ok a ≡ ok b → a ≡ b
ok_inj a b e = ground arith

pub passed :
    {A : Type 0} (b : Bool) (e : Error) (r : Result A) (a : A)
    → (if b then err e else r) ≡ ok a
    → (b ≡ false) × (r ≡ ok a)
passed true e r a h = ground arith
passed false e r a h = (refl, h)

pub followed :
    {A B : Type 0} (r : Result A) (f : A → Result B) (b : B)
    → and_then r f ≡ ok b
    → (a : A) × (r ≡ ok a) × (f a ≡ ok b)
followed (ok a) f b h = (a, refl, h)
followed (err e) f b h = ground arith

pub unnegated : (b : Bool) → not b ≡ false → b ≡ true
unnegated true h = refl
unnegated false h = ground arith

pub neither : (b c : Bool) → (b || c) ≡ false → (b ≡ false) × (c ≡ false)
neither true c h = ground arith
neither false c h = (refl, h)

pub unwrapped : {A : Type 0} (s : String) (r : Result A) (a : A) → wrapped s r ≡ ok a → r ≡ ok a
unwrapped s (ok a') a h = h
unwrapped s (err e) a h = ground arith

module _ (env : Sources) where
  -- The text is an absolute URL of the scheme, without user information, query or fragment.
  unfoldable pub IsLocation : String → String → RequestUrl → Type 0
  IsLocation scheme raw u =
      (env.parse_request_uri raw ≡ ok u) × (u.scheme ≡ scheme) × (has_extras u ≡ false)

  -- No name server has to be asked and the address is public, or every address of the name is.
  unfoldable pub IsPublicHost : String → Type 0
  IsPublicHost host =
      ((ip : IpAddress) × (env.parse_ip host ≡ some ip) × (is_public_ingest_address ip ≡ true))
      ⊎ ((ips : List IpAddress) × (env.lookup_ip_addr host ≡ ok ips)
          × (all is_public_ingest_address ips ≡ true))

  -- Unless private addresses are allowed, the host of the URL is public.
  unfoldable pub IsHostAllowed : Bool → String → Type 0
  IsHostAllowed allow_private raw =
      (u : RequestUrl) × (env.parse_request_uri raw ≡ ok u)
      × ((allow_private ≡ true) ⊎ IsPublicHost u.hostname)

  IsLocation-parsed :
      (scheme raw : String) (r : Result RequestUrl) (u : RequestUrl)
      → env.parse_request_uri raw ≡ r
      → parsed_selector scheme r ≡ ok u
      → IsLocation scheme raw u
  unfolding IsLocation
  IsLocation-parsed scheme raw (err e) u p h = ground arith
  IsLocation-parsed scheme raw (ok v) u p h = grind (arith, eq_iff v.scheme scheme)

  pub IsLocation-selector :
      (scheme raw : String) (u : RequestUrl)
      → validate_ingest_selector_url env raw scheme ≡ ok u
      → IsLocation scheme raw u
  unfolding validate_ingest_selector_url
  IsLocation-selector scheme raw u h = IsLocation-parsed scheme raw _ u refl (passed _ _ _ u h).1

  -- Accepted addresses, unless private ones are allowed.
  IsPublicHost-addresses :
      (allow_private : Bool) (host : String) (r : Result (List IpAddress)) (x : Unit {0})
      → env.lookup_ip_addr host ≡ r
      → host_allowed allow_private host r ≡ ok x
      → (allow_private ≡ true) ⊎ IsPublicHost host
  unfolding IsPublicHost
  IsPublicHost-addresses allow_private host (err e) x p h = ground arith
  IsPublicHost-addresses allow_private host (ok []) x p h = ground arith
  IsPublicHost-addresses true host (ok (a ∷ rest)) x p h = inl refl
  IsPublicHost-addresses false host (ok (a ∷ rest)) x p h =
      inr (inr (a ∷ rest, p, accepted _ _ x h))
    where
      accepted :
          (b : Bool) (e : Error) (x : Unit {0}) → (if b then ok tt else err e) ≡ ok x → b ≡ true
      accepted true e x h = refl
      accepted false e x h = ground arith

  IsPublicHost-literal :
      (allow_private b : Bool) (e : Error) (x : Unit {0})
      → (if not allow_private && not b then err e else ok tt) ≡ ok x
      → (allow_private ≡ true) ⊎ (b ≡ true)
  IsPublicHost-literal true b e x h = inl refl
  IsPublicHost-literal false true e x h = inr refl
  IsPublicHost-literal false false e x h = ground arith

  IsPublicHost-ip :
      (allow_private : Bool) (host : String) (found : Option IpAddress) (x : Unit {0}) (e : Error)
      → env.parse_ip host ≡ found
      → elim found [
        | some ip ↦ if not allow_private && not (is_public_ingest_address ip) then err e else ok tt
        | none ↦ host_allowed allow_private host (env.lookup_ip_addr host)
      ]
        ≡ ok x
      → (allow_private ≡ true) ⊎ IsPublicHost host
  unfolding IsPublicHost
  IsPublicHost-ip allow_private host none x e p h =
      IsPublicHost-addresses allow_private host _ x refl h
  IsPublicHost-ip allow_private host (some ip) x e p h =
      elim (IsPublicHost-literal allow_private _ e x h) [
        | inl q ↦ inl q
        | inr q ↦ inr (inl (ip, p, q))
      ]

  IsHostAllowed-parsed :
      (allow_private : Bool) (raw : String) (r : Result RequestUrl) (x : Unit {0})
      → env.parse_request_uri raw ≡ r
      → resolved_host env allow_private r ≡ ok x
      → IsHostAllowed allow_private raw
  unfolding IsHostAllowed
  IsHostAllowed-parsed allow_private raw (err e) x p h = ground arith
  IsHostAllowed-parsed allow_private raw (ok u) x p h =
      (u, p, IsPublicHost-ip allow_private u.hostname _ x _ refl (passed _ _ _ x h).1)

  pub IsHostAllowed-resolved :
      (raw : String) (allow_private : Bool) (x : Unit {0})
      → validate_resolved_host env raw allow_private ≡ ok x
      → IsHostAllowed allow_private raw
  unfolding validate_resolved_host
  IsHostAllowed-resolved raw allow_private x h = IsHostAllowed-parsed allow_private raw _ x refl h

  IsLocation-endpoint :
      (raw : String) (r : Result RequestUrl) (u : RequestUrl)
      → env.parse_request_uri raw ≡ r
      → parsed_endpoint r ≡ ok u
      → IsLocation "https" raw u
  unfolding IsLocation
  IsLocation-endpoint raw (err e) u p h = ground arith
  IsLocation-endpoint raw (ok v) u p h = grind (arith, eq_iff v.scheme "https")

  -- The text is a location in the source's bucket, with a key under one of its prefixes.
  unfoldable pub IsInBucket : S3Source → String → String → Type 0
  IsInBucket source raw selector =
      (u : RequestUrl) × IsLocation "s3" raw u
      × (u.host ≡ source.bucket)
      × (matches_key_prefix (trim_prefix u.escaped_path "/") source.key_prefixes ≡ true)
      × (selector ≡ u.text)

  IsInBucket-within :
      (source : S3Source) (raw s : String) (u : RequestUrl)
      → IsLocation "s3" raw u
      → within_bucket env source u ≡ ok s
      → IsInBucket source raw s
  unfolding within_bucket IsInBucket
  IsInBucket-within source raw s u l h =
      let (bucket, h1) = passed _ _ _ s h in
      let (_, h2) = passed _ _ _ s h1 in
      let (key, h3) = passed _ _ _ s h2 in
      let (_, _, h4) =
        followed
          (wrapped "invalid S3 source endpoint: %w" (validate_source_endpoint env source.endpoint))
          (λ e.
            if has_path e
            then err (errorf "invalid S3 source endpoint: path is not permitted" [])
            else ok u.text)
          s h3 in
      let (_, h5) = passed _ _ _ s h4 in
      (
        u,
        l,
        (eq_iff u.host source.bucket).0 (unnegated _ bucket),
        unnegated _ key,
        sym (ok_inj u.text s h5),
      )

  pub IsInBucket-selector :
      (source : S3Source) (raw s : String)
      → validate_named_s3_selector env raw source ≡ ok s
      → IsInBucket source raw s
  unfolding validate_named_s3_selector
  IsInBucket-selector source raw s h =
      let (_, h1) =
        passed (trim_space source.region == "") (errorf "S3 source region must not be empty" []) _ s
          h in
      let (_, h2) =
        passed (trim_space source.bucket == "" || contains_any source.bucket "/@?# ")
          (errorf "S3 source bucket is invalid" []) _ s h1 in
      let (_, h3) =
        passed (any bad_key_prefix source.key_prefixes)
          (errorf
            "S3 source key prefixes must be non-empty relative keys without queries or fragments"
            [])
          _ s h2 in
      let (u, l, h4) =
        followed (validate_ingest_selector_url env raw "s3") (λ u. within_bucket env source u) s
          h3 in
      IsInBucket-within source raw s u (IsLocation-selector "s3" raw u l) h4

  -- The text is a location of the source's origin, with a path without dot segments under one of
  -- its prefixes.
  unfoldable pub IsInOrigin : HttpSource → String → String → Type 0
  IsInOrigin source raw selector =
      (u : RequestUrl) × (origin : RequestUrl) × (p : String) × (prefixes : List String)
      × IsLocation "https" raw u
      × IsLocation "https" source.origin origin
      × (env.equal_fold u.host origin.host ≡ true)
      × (canonical_http_path env u.escaped_path ≡ ok p)
      × (canonical_prefixes env source.path_prefixes ≡ ok prefixes)
      × (matches_path_prefix p prefixes ≡ true)
      × (selector ≡ u.text)

  IsInOrigin-within :
      (source : HttpSource) (raw s : String) (u o : RequestUrl)
      → IsLocation "https" raw u
      → IsLocation "https" source.origin o
      → within_origin env source u o ≡ ok s
      → IsInOrigin source raw s
  unfolding within_origin IsInOrigin
  IsInOrigin-within source raw s u o l l' h =
      let (_, h1) = passed _ _ _ s h in
      let (fold, h2) = passed _ _ _ s h1 in
      let (p, canonical, h3) =
        followed (canonical_http_path env u.escaped_path)
          (λ p. and_then (canonical_prefixes env source.path_prefixes) (λ ps. under p ps)) s h2 in
      let (ps, prefixes, h4) =
        followed (canonical_prefixes env source.path_prefixes) (λ ps. under p ps) s h3 in
      let (matched, h5) = passed _ _ _ s h4 in
      (
        u,
        o,
        p,
        ps,
        l,
        l',
        unnegated _ (neither _ _ fold).1,
        canonical,
        prefixes,
        unnegated _ matched,
        sym (ok_inj u.text s h5),
      )
    where
      under : String → List String → Result String
      under p ps =
          if not (matches_path_prefix p ps)
          then err (errorf "HTTP input path is outside the source path prefixes" [])
          else ok u.text

  pub IsInOrigin-selector :
      (source : HttpSource) (raw s : String)
      → validate_named_http_selector env raw source ≡ ok s
      → IsInOrigin source raw s
  unfolding validate_named_http_selector validate_source_endpoint
  IsInOrigin-selector source raw s h =
      let (u, l, h1) =
        followed (validate_ingest_selector_url env raw "https") (λ u. in_origin u) s h in
      let (o, e, h2) =
        followed
          (wrapped "invalid HTTP source origin: %w" (validate_source_endpoint env source.origin))
          (λ o. within_origin env source u o) s h1 in
      IsInOrigin-within source raw s u o (IsLocation-selector "https" raw u l)
        (IsLocation-endpoint source.origin _ o refl (unwrapped _ _ o e)) h2
    where
      in_origin : RequestUrl → Result String
      in_origin u =
          and_then
            (wrapped "invalid HTTP source origin: %w" (validate_source_endpoint env source.origin))
            (λ o. within_origin env source u o)
