-- ===== src/Prelude/Int64.antt =====
-- Go's int64 as its bit pattern: two's complement, so n < 2^63 stands for itself.
use Prim.Native.Nat.{ℕ, zero, suc, ◌+◌, ◌-◌, ◌/◌, ◌%◌, ◌^◌, ◌<◌}
use Prim.Native.String.{String, ◌++◌, char_at}
use mathlib.Core.Bool.{Bool}
use mathlib.Core.Path.{◌≡◌, refl}
use native.Mathlib.Omega.{arith}
use finn_api_go.Prelude.Tests.{ltb, if◌then◌else◌}

abbrev pub Int64 : Type 0
Int64 = ℕ

unfoldable pub add64 : Int64 → Int64 → Int64
add64 a b = (a + b) % 2 ^ 64

-- The order of the signed values: adding 2^63 moves the least one to 0.
unfoldable pub lt64 : Int64 → Int64 → Bool
lt64 a b = ltb ((a + 2 ^ 63) % 2 ^ 64) ((b + 2 ^ 63) % 2 ^ 64)

abbrev numerals : String
numerals = "0123456789"

digit : ℕ → String
digit d = String.◌∷◌ (char_at numerals d) ""

-- Decimal digits, the last one first put; the fuel bounds their number.
show_digits : ℕ → ℕ → String → String
unfolding digit
show_digits zero n acc = acc
show_digits (suc f) n acc =
    let rest = show_digits f (n / 10) (digit (n % 10) ++ acc) in
    if ltb n 10 then digit n ++ acc else rest

-- 20 digits hold every number below 2^64.
unfoldable pub show_uint : ℕ → String
unfolding show_digits
show_uint n = show_digits 20 n ""

unfoldable pub show64 : Int64 → String
unfolding show_uint
show64 n = if ltb n (2 ^ 63) then show_uint n else "-" ++ show_uint (2 ^ 64 - n)

pub lt64_small : (a b : ℕ) → a < 2 ^ 63 → b < 2 ^ 63 → lt64 a b ≡ ltb a b
unfolding lt64
lt64_small a b p q = ground arith

pub add64_small : (a b : ℕ) → a + b < 2 ^ 64 → add64 a b ≡ a + b
unfolding add64
add64_small a b p = omega arith

show64_runs : show64 (2 ^ 64 - 1203) ≡ "-1203"
unfolding show64
show64_runs = refl
