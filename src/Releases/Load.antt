-- ===== src/Releases/Load.antt =====
-- `releases.Load` behind the decoding of the file, and what a loaded catalogue is worth.
use Prim.Native.Char.{code}
use mathlib.Core.Bool.{not}
use tamoss.Base.{
  String, ◌==◌, Bool, false, ◌||◌, Option, none, some, List, [], ◌∷◌, is_some, nat_eq,
  if◌then◌else◌,
}
use tamoss.Base.Assoc.{find, put}
use tamoss.Base.Text.{trim_space}
use tamoss.Kube.{errorf, wrapf}
use tamoss.Effect.{Result, ok, err}
use tamoss.Releases.{Release, Catalogue, required_fields, validate_version}

-- `strings.ContainsAny(value, " \t\r\n")`.
unfoldable pub has_blank : String → Bool
has_blank String.[] = false
has_blank (String.◌∷◌ ch s) =
    let n = code ch in nat_eq n 32 || nat_eq n 9 || nat_eq n 13 || nat_eq n 10 || has_blank s

-- The first field that is empty or holds white space.
unfoldable pub bad_field : List (String × String) → Option String
unfolding has_blank
bad_field [] = none
bad_field ((name, value) ∷ fields) =
    if value == "" || has_blank value then some name else bad_field fields

abbrev pub check_fields : Release → Option String → Result (Unit {0})
check_fields r none = ok tt
check_fields r (some field) = err (errorf "release %s has invalid %s" (r.version ∷ field ∷ []))

abbrev pub check_schema : Release → Result (Unit {0}) → Result (Unit {0})
check_schema r (err e) = err (wrapf "release %s: %w" (r.version ∷ []) e)
check_schema r (ok u) = check_fields r (bad_field (required_fields r))

-- The body of the loop in `Load`, for one entry.
unfoldable pub check_entry : Catalogue → Release → Result (Unit {0})
unfolding bad_field
check_entry c r =
    if r.version == "" || not (trim_space r.version == r.version)
    then err (errorf "invalid release version %q" (r.version ∷ []))
    else if is_some (find r.version c)
    then err (errorf "duplicate release %q" (r.version ∷ []))
    else check_schema r (validate_version r.schema.version)

abbrev pub insert_checked : Catalogue → Release → Result (Unit {0}) → Result Catalogue
insert_checked c r (err e) = err e
insert_checked c r (ok u) = ok (put r.version r c)

abbrev pub continue : (Catalogue → Result Catalogue) → Result Catalogue → Result Catalogue
continue f (err e) = err e
continue f (ok c) = f c

-- The loop.
unfoldable pub load_from : List Release → Catalogue → Result Catalogue
unfolding check_entry
load_from [] c = ok c
load_from (r ∷ rs) c = continue (load_from rs) (insert_checked c r (check_entry c r))

abbrev pub require_some_release : Catalogue → Result Catalogue
require_some_release [] = err (errorf "release catalogue is empty" [])
require_some_release (e ∷ c) = ok (e ∷ c)

-- `Load` on the decoded entries.
unfoldable pub load : List Release → Result Catalogue
unfolding load_from
load rs = continue require_some_release (load_from rs [])
