-- ===== src/Base/Text/Bytes.antt =====
-- Go's byte strings where the operator counts and cuts bytes: a text is its characters, and each of
-- them is one to four bytes of UTF-8. A cut at a byte keeps the whole characters before it, which
-- is Go's for the ASCII texts that names are.
use Prim.Native.Char.{Char, code}
use Prim.Native.Nat.{ℕ, ◌+◌, ◌-◌, ◌≤◌}
use Prim.Native.String.{String, ◌++◌}
use mathlib.Core.Bool.{Bool, true, false, ◌&&◌, ◌||◌}
use mathlib.Core.Path.{◌≡◌, refl, ap}
use native.Mathlib.Omega.{arith}
use text.Mathlib.Text.{◌==◌}
use text.Mathlib.TextLemmas.{nil-append, cons-append}
use tamoss.Base.Tests.{if◌then◌else◌, leb, ltb}

unfoldable pub utf8_size : Char → ℕ
utf8_size c =
    let n = code c in
    if ltb n 0x80 then 1 else if ltb n 0x800 then 2 else if ltb n 0x10000 then 3 else 4

-- `len(s)`.
unfoldable pub byte_length : String → ℕ
byte_length String.[] = 0
byte_length (String.◌∷◌ c s) = utf8_size c + byte_length s

-- `s[:n]`.
unfoldable pub take_bytes : ℕ → String → String
take_bytes n String.[] = ""
take_bytes n (String.◌∷◌ c s) =
    let rest = take_bytes (n - utf8_size c) s in
    if leb (utf8_size c) n then String.◌∷◌ c rest else ""

-- `strings.TrimRight(s, cutset)`, with the test for the characters of the cutset.
unfoldable pub trim_right_of : (Char → Bool) → String → String
trim_right_of p String.[] = ""
trim_right_of p (String.◌∷◌ c s) =
    let rest = trim_right_of p s in if p c && rest == "" then "" else String.◌∷◌ c rest

-- Every character passes the test.
unfoldable pub all_chars : (Char → Bool) → String → Bool
all_chars p String.[] = true
all_chars p (String.◌∷◌ c s) = p c && all_chars p s

abbrev pub is_lower_hex : Char → Bool
is_lower_hex c = let n = code c in leb b'0' n && leb n b'9' || leb b'a' n && leb n b'f'

pub byte_length-append : (s t : String) → byte_length (s ++ t) ≡ byte_length s + byte_length t
unfolding byte_length
byte_length-append String.[] t = omega (arith, ap byte_length (nil-append t))
byte_length-append (String.◌∷◌ c s) t =
    omega (arith, byte_length-append s t, ap byte_length (cons-append c s t))

fits :
    (b : Bool) (c : Char) (s : String) (n : ℕ)
    → leb (utf8_size c) n ≡ b
    → byte_length s ≤ n - utf8_size c
    → byte_length (if b then String.◌∷◌ c s else "") ≤ n
unfolding byte_length
fits true c s n e h = ground arith
fits false c s n e h = omega arith

pub byte_length-take_bytes : (n : ℕ) (s : String) → byte_length (take_bytes n s) ≤ n
unfolding byte_length take_bytes
byte_length-take_bytes n String.[] = omega arith
byte_length-take_bytes n (String.◌∷◌ c s) =
    fits _ c _ n refl (byte_length-take_bytes (n - utf8_size c) s)

shorter :
    (b : Bool) (c : Char) (s : String) (n : ℕ)
    → byte_length s ≤ n
    → byte_length (if b then "" else String.◌∷◌ c s) ≤ utf8_size c + n
unfolding byte_length
shorter true c s n h = omega arith
shorter false c s n h = omega arith

pub byte_length-trim_right_of :
    (p : Char → Bool) (s : String) → byte_length (trim_right_of p s) ≤ byte_length s
unfolding byte_length trim_right_of
byte_length-trim_right_of p String.[] = omega arith
byte_length-trim_right_of p (String.◌∷◌ c s) = shorter _ c _ _ (byte_length-trim_right_of p s)
