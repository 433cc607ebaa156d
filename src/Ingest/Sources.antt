-- ===== src/Ingest/Sources.antt =====
-- The resolver of an ingest run's inputs against the source policy of its instance
-- (ingest_resolvers.go, SourcePolicyResolver, with tamoss_ingest_types.go). net, net/url, JSON, SHA-256
-- and the reader of Secrets are the environment `Sources`.
pub mod Selectors
pub mod Resolve
pub mod Approval
pub mod Policy
use Prim.Native.Char.{Char, code}
use Prim.Native.String.{◌++◌}
use mathlib.Core.Bool.{not}
use tamoss.Base.{
  ℕ, String, ◌==◌, Bool, true, false, ◌&&◌, ◌||◌, Option, none, some, List, [], ◌∷◌, any, ltb,
  nat_eq, if◌then◌else◌,
}
use tamoss.Base.Assoc.{get}
use tamoss.Base.Int32.{at_least}
use tamoss.Base.Text.{trim_space, trim_suffix, cut_prefix, has_prefix, has_suffix, clean}
use tamoss.Base.Text.Bytes.{byte_length, all_chars}
use tamoss.Kube.{Error, not_found, errorf, wrapf}
use tamoss.Effect.{Result, ok, err}
use tamoss.Ingest.Run.{IngestRunInput}
use tamoss.Ingest.Inputs.{ResolvedIngestInputs}

pub record HttpSource : Type 0 where
  pub origin : String
  pub path_prefixes : List String
  pub allow_private_addresses : Bool
  pub credential_secret_ref : Option String

pub record S3Source : Type 0 where
  pub endpoint : String
  pub region : String
  pub bucket : String
  pub key_prefixes : List String
  pub path_style : Bool
  pub allow_private_addresses : Bool
  pub credential_secret_ref : Option String

pub record IngestSource : Type 0 where
  pub name : String
  pub kind : String
  pub http : Option HttpSource
  pub s3 : Option S3Source

-- `spec.ingest` of an instance: the mode of the source policy and the sources.
pub record IngestSpec : Type 0 where
  pub mode : String
  pub sources : List IngestSource

-- `tamsinSourcePolicy`, without the constant version: with the fields of the source that it restricts to.
pub data SourcePolicy : Type 0 where
  public_https : SourcePolicy
  restricted_http : String → List String → Bool → SourcePolicy
  restricted_s3 : String → String → List String → Bool → Bool → SourcePolicy

-- `ingestSourcePolicySnapshot`.
pub record PolicySnapshot : Type 0 where
  pub source_name : String
  pub policy : SourcePolicy
  pub credential_secret_name : String
  pub s3_region : String

-- `url.URL` as `url.ParseRequestURI` makes it, with what its methods return.
pub record RequestUrl : Type 0 where
  pub scheme : String
  pub has_user : Bool
  pub host : String
  pub hostname : String
  pub port : String
  pub path : String
  pub escaped_path : String
  pub raw_query : String
  pub fragment : String
  pub text : String

-- `net.IP`, by what its methods return.
pub record IpAddress : Type 0 where
  pub is_global_unicast : Bool
  pub is_private : Bool
  pub is_loopback : Bool
  pub is_link_local_unicast : Bool
  pub is_link_local_multicast : Bool
  pub is_multicast : Bool
  pub is_unspecified : Bool

pub record Sources : Type 0 where
  pub parse_request_uri : String → Result RequestUrl
  pub path_unescape : String → Result String
  pub equal_fold : String → String → Bool
  pub parse_ip : String → Option IpAddress
  pub lookup_ip_addr : String → Result (List IpAddress)
  pub secret_at : String → String → Result (List (String × String))
  pub unmarshal_headers : String → Result (List String)
  pub marshal : PolicySnapshot → Result String
  pub sha256_hex : String → String

-- What follows a call that returned no error.
abbrev pub and_then : {A B : Type 0} → Result A → (A → Result B) → Result B
and_then (err e) f = err e
and_then (ok a) f = f a

-- `fmt.Errorf` with `%w` around the error.
abbrev pub wrapped : {A : Type 0} → String → Result A → Result A
wrapped f (err e) = err (wrapf f [] e)
wrapped f (ok a) = ok a

-- `strings.TrimPrefix`.
unfoldable pub trim_prefix : String → String → String
unfolding cut_prefix
trim_prefix s p = elim (cut_prefix s p) [ none ↦ s | some r ↦ r ]

-- The character is none of the text's.
abbrev lacks : String → Char → Bool
lacks String.[] c = true
lacks (String.◌∷◌ d ds) c = not (nat_eq (code c) (code d)) && lacks ds c

-- `strings.ContainsAny`.
unfoldable pub contains_any : String → String → Bool
unfolding all_chars
contains_any s chars = not (all_chars (lacks chars) s)

-- `isPublicIngestAddress`.
unfoldable pub is_public_ingest_address : IpAddress → Bool
is_public_ingest_address ip =
    ip.is_global_unicast
    && not ip.is_private
    && not ip.is_loopback
    && not ip.is_link_local_unicast
    && not ip.is_link_local_multicast
    && not ip.is_multicast
    && not ip.is_unspecified

-- `matchesPathPrefix`.
unfoldable pub matches_path_prefix : String → List String → Bool
unfolding trim_suffix has_prefix
matches_path_prefix http_path [] = true
matches_path_prefix http_path (p ∷ ps) =
    any
      (λ prefix.
        let candidate = trim_suffix prefix "/" in
        http_path == candidate || has_prefix http_path (trim_suffix candidate "/" ++ "/"))
      (p ∷ ps)

-- `matchesKeyPrefix`.
unfoldable pub matches_key_prefix : String → List String → Bool
unfolding trim_prefix has_prefix
matches_key_prefix key [] = true
matches_key_prefix key (p ∷ ps) = any (λ prefix. has_prefix key (trim_prefix prefix "/")) (p ∷ ps)

-- User information, a query or a fragment.
abbrev pub has_extras : RequestUrl → Bool
has_extras u = u.has_user || not (u.raw_query == "") || not (u.fragment == "")

abbrev pub has_path : RequestUrl → Bool
has_path u = not (u.path == "") && not (u.path == "/")
