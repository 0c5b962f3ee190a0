-- ===== src/Base/Texts.antt =====
-- Texts: a test on every character, and the numerals that Rust's formatting writes.
use Prim.Native.Char.{code}
use Prim.Native.String.{◌++◌, slice}
use Prim.Native.Nat.{ℕ, zero, suc, ◌/◌, ◌%◌}
use Prim.Native.String.{String}
use mathlib.Core.Bool.{Bool, true, ◌&&◌}
use package.knox_iam_public.Base.Tests.{ltb, if◌then◌else◌}

unfoldable pub all_chars : (ℕ → Bool) → String → Bool
all_chars p String.[] = true
all_chars p (String.◌∷◌ c s) = p (code c) && all_chars p s

abbrev pub digit : ℕ → String
digit n = slice "0123456789abcdef" n (suc n)

-- `{}`: n has at most n + 1 digits.
abbrev pub decimal_within : ℕ → ℕ → String
decimal_within zero n = digit n
decimal_within (suc fuel) n =
    let rest = decimal_within fuel (n / 10) in if ltb n 10 then digit n else rest ++ digit (n % 10)

abbrev pub decimal_text : ℕ → String
decimal_text n = decimal_within n n

-- The last digits in base 16, as many as asked for: `{:08x}` of a u32 for eight.
abbrev pub hex_text : ℕ → ℕ → String
hex_text zero n = ""
hex_text (suc digits) n = hex_text digits (n / 16) ++ digit (n % 16)
