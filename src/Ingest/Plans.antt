-- ===== src/Ingest/Plans.antt =====
-- The resolved inputs that validateResolvedIngestInputs of ingestrun_controller.go accepts.
use mathlib.Core.Bool.{not}
use mathlib.Core.Logic.{◌↔◌}
use tamoss.Base.{
  ℕ, String, ◌==◌, ◌+◌, ◌≤◌, ◌<◌, ◌≡◌, refl, Bool, true, false, ◌⊎◌, Option, none, some, List, [],
  ◌∷◌, All, leb, ltb, nat_eq, ◌||◌, if◌then◌else◌, length, arith, eq_iff,
}
use tamoss.Base.Int32.{at_least, half}
use tamoss.Base.Text.{trim_space}
use tamoss.Base.Text.Bytes.{byte_length}
use tamoss.Kube.{Error}
use tamoss.Effect.{Result, ok, err}
use tamoss.Ingest.Inputs.{
  ResolvedIngestInputs, Url, is_digest, is_slashes, location_error, url_error, selectors_error,
  inputs_error,
}

-- An absolute location of an object in a bucket, or on an HTTPS host, without credentials, query or
-- fragment.
unfoldable pub IsLocation : Result Url → Type 0
IsLocation (err e) = ⊥
IsLocation (ok u) =
    (u.has_user ≡ false)
    × (u.raw_query ≡ "")
    × (u.fragment ≡ "")
    × ((u.host == "") ≡ false)
    × (((u.scheme ≡ "s3") × (is_slashes u.path ≡ false)) ⊎ (u.scheme ≡ "https"))

unfoldable pub total_bytes : List String → ℕ
total_bytes [] = 0
total_bytes (s ∷ ss) = byte_length s + total_bytes ss

differs : (s t v : String) → (t == v) ≡ false → (s == t) ≡ true → (s == v) ≡ false
differs s t v h e = rw ((eq_iff s t).0 e) h

url_error-IsLocation : (r : Result Url) → (url_error r ≡ none) ↔ IsLocation r
unfolding url_error location_error IsLocation
url_error-IsLocation (err e) = ground arith
url_error-IsLocation (ok u) = ground (
  arith,
  eq_iff u.scheme "",
  eq_iff u.scheme "s3",
  eq_iff u.scheme "https",
  eq_iff u.raw_query "",
  eq_iff u.fragment "",
  differs u.scheme "s3" "" refl,
  differs u.scheme "https" "" refl,
  differs u.scheme "https" "s3" refl,
)

zero_within : (n : ℕ) → 0 ≤ n
zero_within n = omega arith

positive : (n : ℕ) → (nat_eq n 0 ≡ false) ↔ (0 < n)
positive n = ground arith

not_above : (m n : ℕ) → (ltb m n ≡ false) ↔ (n ≤ m)
not_above m n = ground arith

-- The early returns of the checks.
chain :
    (b c d e f : Bool) (x y z u v : Error) (rest : Option Error)
    → ((if b
          then some x
          else if c
          then some y
          else if d
          then some z
          else if e
          then some u
          else if f
          then some v
          else rest)
        ≡ none)
      ↔ ((b ≡ false) × (c ≡ false) × (d ≡ false) × (e ≡ false) × (f ≡ false) × (rest ≡ none))
chain b c d e f x y z u v rest = ground arith

module _ (parse_url : String → Result Url) where
  unfoldable pub IsSelector : String → Type 0
  IsSelector s = (byte_length s ≤ 2048) × IsLocation (parse_url s)

  abbrev Accepts : ℕ → List String → Type 0
  Accepts total ss =
      (selectors_error parse_url total ss ≡ none)
      ↔ ((total + total_bytes ss ≤ 32768) × All IsSelector ss)

  Accepts-cons :
      (total : ℕ) (s : String) (ss : List String) (b : Bool)
      → ltb 32768 (total + byte_length s) ≡ b
      → (total + byte_length s ≤ 32768 → Accepts (total + byte_length s) ss)
      → Accepts total (s ∷ ss)
  unfolding selectors_error total_bytes IsSelector
  Accepts-cons total s ss true e ih = ground arith
  Accepts-cons total s ss false e ih =
      let rest = ih (ground arith) in let url = url_error-IsLocation (parse_url s) in ground arith

  -- From a total within the limit.
  selectors_error_iff : (total : ℕ) (ss : List String) → total ≤ 32768 → Accepts total ss
  unfolding selectors_error total_bytes
  selectors_error_iff total [] h = ground arith
  selectors_error_iff total (s ∷ ss) h =
      Accepts-cons total s ss _ refl (selectors_error_iff (total + byte_length s) ss)

  -- The limits of a plan: between 1 and 32 selectors, each a location of at most 2048 bytes, together
  -- at most 32 KiB; an expected number of inputs that is not negative and at most the maximum; a named
  -- source and a SHA-256 of its policy.
  pub record IsPlan (r : ResolvedIngestInputs) (max_inputs : ℕ) : Type 0 where
    pub some_selector : 0 < length r.selectors
    pub few_selectors : length r.selectors ≤ 32
    pub expected :
        (leb half r.expected_inputs ≡ false) × (at_least max_inputs r.expected_inputs ≡ true)
    pub named : (trim_space r.source_name == "") ≡ false
    pub digest : is_digest r.policy_digest ≡ true
    pub few_bytes : total_bytes r.selectors ≤ 32768
    pub selectors : All IsSelector r.selectors

  -- The resolved inputs are accepted exactly if they are a plan within the limits: between 1 and 32
  -- selectors, each an absolute S3 or HTTPS location of at most 2048 bytes without credentials, query
  -- or fragment, together at most 32 KiB; an expected number of inputs that is not negative and at
  -- most the maximum; a named source and a SHA-256 of its policy.
  pub inputs_error_iff :
      (r : ResolvedIngestInputs) (max_inputs : ℕ)
      → (inputs_error parse_url r max_inputs ≡ none) ↔ IsPlan r max_inputs
  unfolding inputs_error
  inputs_error_iff r max_inputs =
      let c =
        chain (nat_eq (length r.selectors) 0) (ltb 32 (length r.selectors))
          (leb half r.expected_inputs || not (at_least max_inputs r.expected_inputs))
          (trim_space r.source_name == "") (not (is_digest r.policy_digest)) _ _ _ _ _
          (selectors_error parse_url 0 r.selectors) in
      let selectors = selectors_error_iff 0 r.selectors (zero_within 32768) in
      (
        λ e.
            let (some_selector, few, expected, named, digest, accepted) = c.0 e in
            let (bytes, all) = selectors.0 accepted in
            record {
              some_selector = (positive _).0 some_selector;
              few_selectors = (not_above 32 _).0 few;
              expected = ground arith;
              named = named;
              digest = ground arith;
              few_bytes = ground arith;
              selectors = all;
            },
        λ p. c.1 (
          (positive _).1 p.some_selector,
          (not_above 32 _).1 p.few_selectors,
          ground (arith, p.expected),
          p.named,
          ground (arith, p.digest),
          selectors.1 (ground (arith, p.few_bytes), p.selectors),
        ),
      )
