-- ===== src/Base/Int32.antt =====
-- Go's `int32` by its 32 bits, in two's complement, with the format `%d`.
use Prim.Native.Nat.{ℕ, zero, suc, ◌+◌, ◌-◌, ◌/◌, ◌%◌, ◌^◌}
use Prim.Native.String.{String, ◌++◌}
use mathlib.Core.Bool.{Bool, ◌&&◌}
use tamoss.Base.Tests.{if◌then◌else◌, ltb, leb, nat_eq}

abbrev pub modulus : ℕ
modulus = 2 ^ 32

abbrev pub half : ℕ
half = 2 ^ 31

-- `c + 1`, with its wrap-around.
unfoldable pub next : ℕ → ℕ
next c = (c + 1) % modulus

-- `c > 0`.
unfoldable pub is_positive : ℕ → Bool
is_positive c = ltb 0 c && ltb c half

-- `a >= b`: the signed order is that of the bits with the sign bit turned over.
unfoldable pub at_least : ℕ → ℕ → Bool
at_least a b = leb ((b + half) % modulus) ((a + half) % modulus)

abbrev digit : ℕ → String
digit n =
    if nat_eq n 0
    then "0"
    else if nat_eq n 1
    then "1"
    else if nat_eq n 2
    then "2"
    else if nat_eq n 3
    then "3"
    else if nat_eq n 4
    then "4"
    else if nat_eq n 5
    then "5"
    else if nat_eq n 6
    then "6"
    else if nat_eq n 7
    then "7"
    else if nat_eq n 8
    then "8"
    else "9"

-- The decimal digits of a number of at most as many digits as there is fuel; the numbers of an
-- `int32` have ten at most.
decimal_rounds : ℕ → ℕ → String
decimal_rounds zero n = ""
decimal_rounds (suc f) n =
    let rest = decimal_rounds f (n / 10) in if ltb n 10 then digit n else rest ++ digit (n % 10)

-- `fmt.Sprintf("%d", c)`.
unfoldable pub decimal : ℕ → String
unfolding decimal_rounds
decimal c = if ltb c half then decimal_rounds 10 c else "-" ++ decimal_rounds 10 (modulus - c)
