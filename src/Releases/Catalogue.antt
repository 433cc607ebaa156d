-- ===== src/Releases/Catalogue.antt =====
-- What a catalogue that `releases.Load` returned is worth.
use tamoss.Base.{String, eq_iff, ◌≡◌, ◌≢◌, none, some, List, [], ◌∷◌, arith, All, refl}
use tamoss.Base.Text.{trim_space}
use tamoss.Base.Assoc.{find, put, find-put}
use tamoss.Effect.{Result, ok, err}
use tamoss.Releases.{Release, Catalogue, required_fields, validate_version}
use tamoss.Releases.Load.{
  bad_field, check_entry, check_schema, insert_checked, continue, load_from, load,
  require_some_release,
}

-- What `Load` asks of an entry by itself.
pub record IsEntry (r : Release) : Type 0 where
  pub named : r.version ≢ ""
  pub trimmed : trim_space r.version ≡ r.version
  pub schema_valid : validate_version r.schema.version ≡ ok tt
  pub complete : bad_field (required_fields r) ≡ none

check_schema_lem :
    (r : Release) (v : Result Unit)
    → check_schema r v ≡ ok tt
    → (v ≡ ok tt) × (bad_field (required_fields r) ≡ none)
check_schema_lem r (ok u) h = ground arith
check_schema_lem r (err e) h = cc

check_entry_lem :
    (c : Catalogue) (r : Release) → check_entry c r ≡ ok tt → IsEntry r × (find r.version c ≡ none)
unfolding check_entry
check_entry_lem c r h = ground (
  arith,
  eq_iff r.version "",
  eq_iff (trim_space r.version) r.version,
  check_schema_lem r (validate_version r.schema.version),
)

step_lem :
    (r : Release) (rs : List Release) (c d : Catalogue) (v : Result Unit)
    → continue (load_from rs) (insert_checked c r v) ≡ ok d
    → (v ≡ ok tt) × (load_from rs (put r.version r c) ≡ ok d)
step_lem r rs c d (ok u) h = (refl, h)
step_lem r rs c d (err e) h = cc

load_from_lem :
    (r : Release) (rs : List Release) (c d : Catalogue)
    → load_from (r ∷ rs) c ≡ ok d
    → (check_entry c r ≡ ok tt) × (load_from rs (put r.version r c) ≡ ok d)
load_from_lem r rs c d h = unfold load_from in step_lem r rs c d (check_entry c r) h

-- An entry that is in the catalogue stays as it is.
load_from-keeps :
    (v : String) (q : Release) (rs : List Release) (c d : Catalogue)
    → load_from rs c ≡ ok d
    → find v c ≡ some q
    → find v d ≡ some q
unfolding load_from
load_from-keeps v q [] c d h f = ground arith
load_from-keeps v q (r ∷ rs) c d h f =
    let (checked, rest) = load_from_lem r rs c d h in
    let fresh = (check_entry_lem c r checked).1 in
    load_from-keeps v q rs (put r.version r c) d rest
      (ground (arith, find-put r.version v r c, eq_iff r.version v))

load_from_complete :
    (rs : List Release) (c d : Catalogue)
    → load_from rs c ≡ ok d
    → All (λ r. IsEntry r × (find r.version d ≡ some r)) rs
load_from_complete [] c d h = tt
load_from_complete (r ∷ rs) c d h =
    let (checked, rest) = load_from_lem r rs c d h in
    let entry = (check_entry_lem c r checked).0 in
    (
      (
        entry,
        load_from-keeps r.version r rs (put r.version r c) d rest
            (ground (arith, find-put r.version r.version r c, eq_iff r.version r.version)),
      ),
      load_from_complete rs (put r.version r c) d rest,
    )

-- A release stands under its own version.
abbrev IsKeyed : Catalogue → Type 0
IsKeyed c = (v : String) (r : Release) → find v c ≡ some r → (r.version ≡ v) × IsEntry r

put-IsKeyed : (c : Catalogue) (r : Release) → IsKeyed c → IsEntry r → IsKeyed (put r.version r c)
put-IsKeyed c r k e v q h = ground (arith, find-put r.version v r c, eq_iff r.version v, k v q)

load_from-IsKeyed :
    (rs : List Release) (c d : Catalogue) → load_from rs c ≡ ok d → IsKeyed c → IsKeyed d
load_from-IsKeyed [] c d h k = λ v r f. k v r (unfold load_from in ground (arith))
load_from-IsKeyed (r ∷ rs) c d h k =
    let (checked, rest) = load_from_lem r rs c d h in
    load_from-IsKeyed rs (put r.version r c) d rest
      (put-IsKeyed c r k (check_entry_lem c r checked).0)

load_lem :
    (v : Result Catalogue) (c : Catalogue)
    → continue require_some_release v ≡ ok c
    → (v ≡ ok c) × (c ≢ [])
load_lem (ok []) c h = cc
load_lem (ok (e ∷ d)) c h = ground arith
load_lem (err e) c h = cc

-- What it means for a catalogue to hold the given entries: it is not empty, each entry is well
-- formed and stands under its version, and every release that it finds stands under its own.
pub record IsCatalogueOf (rs : List Release) (c : Catalogue) : Type 0 where
  pub inhabited : c ≢ []
  pub complete : All (λ r. IsEntry r × (find r.version c ≡ some r)) rs
  pub keyed : (v : String) (r : Release) → find v c ≡ some r → (r.version ≡ v) × IsEntry r

-- If `Load` accepts a list of entries, then its catalogue is not empty, each entry is well formed
-- and is what its version finds, so that no entry hides another, and whatever release a version
-- finds is well formed and has that version.
pub load-IsCatalogueOf : (rs : List Release) (c : Catalogue) → load rs ≡ ok c → IsCatalogueOf rs c
load-IsCatalogueOf rs c h =
    let (loaded, inhabited) = load_lem (load_from rs []) c (unfold load in h) in
    record {
      inhabited = inhabited;
      complete = load_from_complete rs [] c loaded;
      keyed = load_from-IsKeyed rs [] c loaded (λ v r f. unfold find in cc);
    }
