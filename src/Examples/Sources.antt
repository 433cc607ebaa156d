-- ===== src/Examples/Sources.antt =====
-- A source policy with one S3 bucket, and an input that it lets through (ingest_resolvers.go).
use tamoss.Base.{String, ◌==◌, ◌≡◌, refl, true, false, none, some, [], ◌∷◌, if◌then◌else◌}
use tamoss.Base.Text.{trim_space, has_prefix, has_suffix}
use tamoss.Base.Text.Bytes.{byte_length, utf8_size}
use tamoss.Effect.{ok}
use tamoss.Ingest.Run.{IngestRunInput}
use tamoss.Ingest.Inputs.{ResolvedIngestInputs}
use tamoss.Ingest.Sources.{
  S3Source, IngestSpec, RequestUrl, IpAddress, Sources, contains_any, trim_prefix,
  is_public_ingest_address, matches_key_prefix,
}
use tamoss.Ingest.Sources.Resolve.{effective_mode, resolve_source_policy}
use tamoss.Ingest.Sources.Policy.{IsApproved, resolve_source_policy-IsApproved}

abbrev url : String → String → String → RequestUrl
url scheme host path = record {
  scheme = scheme;
  has_user = false;
  host = host;
  hostname = host;
  port = "";
  path = path;
  escaped_path = path;
  raw_query = "";
  fragment = "";
  text = "s3://media/in/a.mxf";
}

abbrev address : IpAddress
address = record {
  is_global_unicast = true;
  is_private = false;
  is_loopback = false;
  is_link_local_unicast = false;
  is_link_local_multicast = false;
  is_multicast = false;
  is_unspecified = false;
}

abbrev sources : Sources
sources = record {
  parse_request_uri = λ s. ok (
      if has_prefix s "s3:" then url "s3" "media" "/in/a.mxf" else url "https" "s3.example.org" "");
  path_unescape = λ s. ok s;
  equal_fold = λ s t. s == t;
  parse_ip = λ s. none;
  lookup_ip_addr = λ s. ok (address ∷ []);
  secret_at = λ ns n. ok [];
  unmarshal_headers = λ s. ok [];
  marshal = λ p. ok "{}";
  sha256_hex = λ s. "digest";
}

abbrev bucket : S3Source
bucket = record {
  endpoint = "https://s3.example.org";
  region = "eu-west-1";
  bucket = "media";
  key_prefixes = "in/" ∷ [];
  path_style = false;
  allow_private_addresses = false;
  credential_secret_ref = none;
}

abbrev policy : IngestSpec
policy = record {
  mode = "Restricted";
  sources = record { name = "archive"; kind = "S3"; http = none; s3 = some bucket } ∷ [];
}

abbrev object : IngestRunInput
object = record { kind = "S3"; uri = "s3://media/in/a.mxf"; source_ref = some "archive" }

abbrev resolved : ResolvedIngestInputs
resolved = record {
  selectors = "s3://media/in/a.mxf" ∷ [];
  expected_inputs = 1;
  source_name = "archive";
  policy_digest = "digest";
  credential_secret_name = "";
  credential_kind = "S3";
  s3_endpoint = "https://s3.example.org";
  s3_region = "eu-west-1";
  s3_path_style = false;
}

resolves : resolve_source_policy sources "media" policy object 1 ≡ ok resolved
unfolding resolve_source_policy has_prefix has_suffix trim_space byte_length contains_any
    trim_prefix is_public_ingest_address matches_key_prefix utf8_size
resolves = refl

resolve_source_policy-IsApproved_example :
    ((effective_mode policy == "Disabled") ≡ false)
    × IsApproved sources (effective_mode policy) policy.sources object resolved
resolve_source_policy-IsApproved_example =
    resolve_source_policy-IsApproved sources "media" policy object 1 resolved resolves
