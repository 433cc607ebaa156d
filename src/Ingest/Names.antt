-- ===== src/Ingest/Names.antt =====
-- The names that an ingest run gives to its Job and to its label, and the test for an image that is
-- pinned by its digest (ingestrun_controller.go).
use Prim.Native.Char.{Char, code}
use Prim.Native.String.{◌++◌}
use tamoss.Base.{
  refl, ℕ, String, ◌==◌, ◌+◌, ◌-◌, ◌≤◌, ◌≡◌, Bool, true, false, not, ◌&&◌, ◌||◌, Option, none, some,
  arith, leb, [], ◌∷◌, nat_eq, if◌then◌else◌,
}
use tamoss.Base.Text.{concat, trim_space, cut_prefix}
use tamoss.Base.Text.Bytes.{
  byte_length, utf8_size, take_bytes, trim_right_of, all_chars, is_lower_hex, byte_length-append,
  byte_length-take_bytes, byte_length-trim_right_of,
}

-- The characters of `"-."`.
abbrev is_dash_or_dot : Char → Bool
is_dash_or_dot c = nat_eq (code c) b'-' || nat_eq (code c) b'.'

-- `strings.Cut`: the text before and behind the first separator.
unfoldable pub cut : String → String → Option (String × String)
cut String.[] sep = elim (cut_prefix "" sep) [ none ↦ none | some r ↦ some ("", r) ]
cut (String.◌∷◌ c s) sep =
    let rest = cut s sep in
    elim (cut_prefix (String.◌∷◌ c s) sep) [
      | some r ↦ some ("", r)
      | none ↦ elim rest [ none ↦ none | some p ↦ some (String.◌∷◌ c p.0, p.1) ]
    ]

abbrev is_pinned : Option (String × String) → Bool
is_pinned none = false
is_pinned (some (repository, digest)) =
    not (repository == "") && nat_eq (byte_length digest) 64 && all_chars is_lower_hex digest

-- `isImmutableImageReference`.
unfoldable pub is_immutable_image_reference : String → Bool
unfolding cut trim_space byte_length all_chars cut_prefix
is_immutable_image_reference image = is_pinned (cut (trim_space image) "@sha256:")

bounded-if :
    (b : Bool) (s t : String)
    → (b ≡ true → byte_length s ≤ 63)
    → (b ≡ false → byte_length t ≤ 63)
    → byte_length (if b then s else t) ≤ 63
bounded-if true s t h k = h refl
bounded-if false s t h k = k refl

-- The hexadecimal text of a SHA-256 is the parameter.
module _ (sha256_hex : String → String) where
  -- `ingestJobName`.
  unfoldable pub ingest_job_name : String → String
  unfolding byte_length take_bytes trim_right_of
  ingest_job_name run =
      if leb (7 + byte_length run) 63
      then concat ("tamsin-" ∷ run ∷ [])
      else (let suffix = take_bytes 10 (sha256_hex run) in
          concat (
            "tamsin-"
            ∷ trim_right_of is_dash_or_dot (take_bytes (63 - 7 - byte_length suffix - 1) run)
            ∷ "-"
            ∷ suffix
            ∷ []))

  -- `ingestRunSelectorValue`.
  unfoldable pub ingest_run_selector_value : String → String
  unfolding byte_length take_bytes trim_right_of
  ingest_run_selector_value run =
      if leb (byte_length run) 63
      then run
      else concat (
          trim_right_of is_dash_or_dot (take_bytes 52 run)
          ∷ "-"
          ∷ take_bytes 10 (sha256_hex run)
          ∷ [])

  -- A stem of at most `n` bytes with a suffix of the hash.
  stem-bounded :
      (n m : ℕ) (run : String)
      → byte_length
          (trim_right_of is_dash_or_dot (take_bytes n run) ++ "-" ++ take_bytes m (sha256_hex run))
        ≤ n + 1 + byte_length (take_bytes m (sha256_hex run))
  unfolding byte_length utf8_size
  stem-bounded n m run =
      let stem = trim_right_of is_dash_or_dot (take_bytes n run) in
      let suffix = take_bytes m (sha256_hex run) in
      omega (
        arith,
        byte_length-append stem ("-" ++ suffix),
        byte_length-append "-" suffix,
        byte_length-trim_right_of is_dash_or_dot (take_bytes n run),
        byte_length-take_bytes n run,
      )

  -- The name of a run's Job is at most 63 bytes long, and so is the value of the label that carries
  -- the run's name, whatever the run is called.
  pub ingest_job_name-bounded :
      (run : String)
      → (byte_length (ingest_job_name run) ≤ 63)
        × (byte_length (ingest_run_selector_value run) ≤ 63)
  unfolding ingest_job_name ingest_run_selector_value byte_length utf8_size
  ingest_job_name-bounded run =
      let suffix = take_bytes 10 (sha256_hex run) in
      let n = 63 - 7 - byte_length suffix - 1 in
      (
        bounded-if (leb (7 + byte_length run) 63) (concat ("tamsin-" ∷ run ∷ [])) _
            (λ e. ground (arith, byte_length-append "tamsin-" run))
            (λ e. omega (
              arith,
              byte_length-append "tamsin-"
                  (trim_right_of is_dash_or_dot (take_bytes n run) ++ "-" ++ suffix),
              stem-bounded n 10 run,
              byte_length-take_bytes 10 (sha256_hex run),
            )),
        bounded-if (leb (byte_length run) 63) run _ (λ e. ground arith)
            (λ e.
              omega (arith, stem-bounded 52 10 run, byte_length-take_bytes 10 (sha256_hex run))),
      )
