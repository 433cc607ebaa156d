-- ===== src/Base/Text/Segments.antt =====
-- `strings.Split(s, "/")`, `path.Clean` and `path.Join`, by the segments between slashes.
use Prim.Native.Char.{Char, code}
use Prim.Native.String.{String, ◌++◌}
use mathlib.Core.Bool.{Bool, true, false, ◌||◌}
use mathlib.Core.List.{List, [], ◌∷◌, reverse}
use text.Mathlib.Text.{◌==◌}
use tamoss.Base.Tests.{if◌then◌else◌, nat_eq}

abbrev pub is_slash : Char → Bool
is_slash c = nat_eq (code c) b'/'

-- Puts a character in front of the first segment.
abbrev pub extend : Char → List String → List String
extend c [] = String.◌∷◌ c "" ∷ []
extend c (s ∷ ss) = String.◌∷◌ c s ∷ ss

-- `strings.Split(s, "/")`.
unfoldable pub split : String → List String
split String.[] = "" ∷ []
split (String.◌∷◌ c s) = let rest = split s in if is_slash c then "" ∷ rest else extend c rest

-- `strings.Join(segments, "/")`.
unfoldable pub join : List String → String
join [] = ""
join (s ∷ []) = s
join (s ∷ t ∷ ss) = s ++ "/" ++ join (t ∷ ss)

-- One segment of `path.Clean`, on the segments kept so far, the last one first. A `..` takes
-- back a segment, stays at the front of a relative path, and is dropped at a root.
unfoldable pub clean_step : Bool → List String → String → List String
clean_step rooted [] s =
    if s == "" || s == "."
    then []
    else if s == ".."
    then (if rooted then [] else s ∷ [])
    else s ∷ []
clean_step rooted (k ∷ ks) s =
    if s == "" || s == "."
    then k ∷ ks
    else if s == ".."
    then (if k == ".." then s ∷ k ∷ ks else ks)
    else s ∷ k ∷ ks

unfoldable pub clean_segments : Bool → List String → List String → List String
unfolding clean_step
clean_segments rooted kept [] = kept
clean_segments rooted kept (s ∷ ss) = clean_segments rooted (clean_step rooted kept s) ss

abbrev pub starts_with_slash : String → Bool
starts_with_slash String.[] = false
starts_with_slash (String.◌∷◌ c s) = is_slash c

-- The text of a cleaned path.
unfoldable pub render : Bool → List String → String
unfolding join
render true ss = "/" ++ join ss
render false [] = "."
render false (s ∷ ss) = join (s ∷ ss)

-- `path.Clean`.
unfoldable pub clean : String → String
unfolding split clean_segments render
clean s =
    let rooted = starts_with_slash s in render rooted (reverse (clean_segments rooted [] (split s)))

-- The elements of `path.Join` that are not empty.
unfoldable pub non_empty : List String → List String
non_empty [] = []
non_empty (s ∷ ss) = let rest = non_empty ss in if s == "" then rest else s ∷ rest

unfoldable pub path_join_list : List String → String
unfolding clean join
path_join_list [] = ""
path_join_list (s ∷ ss) = clean (join (s ∷ ss))

-- `path.Join`.
unfoldable pub path_join : List String → String
unfolding path_join_list non_empty
path_join ss = path_join_list (non_empty ss)
