-- ===== src/Base/Words.antt =====
-- 32-bit words. An `int32_t` or `uint32_t` is its bit pattern, a number below 2 ^ 32; the sign is
-- in the comparison. An `int8_t` is its bit pattern too, a number below 256.
use Prim.Native.Nat.{ℕ, ◌+◌, ◌-◌, ◌*◌, ◌%◌, ◌^◌, ◌<◌}
use mathlib.Core.Path.{◌≡◌}
use mathlib.Core.Bool.{Bool}
use native.Mathlib.Omega.{arith}
use fuzzy_os.Base.Tests.{ltb, leb, if◌then◌else◌}

abbrev pub Word : Type 0
Word = ℕ

abbrev pub word_mod : ℕ
word_mod = 2 ^ 32

-- the pattern of -1
abbrev pub minus_one : Word
minus_one = 2 ^ 32 - 1

abbrev pub add32 : Word → Word → Word
add32 a b = (a + b) % 2 ^ 32

abbrev pub sub32 : Word → Word → Word
sub32 a b = (a + 2 ^ 32 - b) % 2 ^ 32

abbrev pub mul32 : Word → Word → Word
mul32 a b = (a * b) % 2 ^ 32

-- `a < b` and `a <= b` on `int32_t`
abbrev pub slt : Word → Word → Bool
slt a b = ltb ((a + 2 ^ 31) % 2 ^ 32) ((b + 2 ^ 31) % 2 ^ 32)

abbrev pub sle : Word → Word → Bool
sle a b = leb ((a + 2 ^ 31) % 2 ^ 32) ((b + 2 ^ 31) % 2 ^ 32)

-- the promotion of an `int8_t` to `int`
abbrev pub sign_extend8 : ℕ → Word
sign_extend8 c = if ltb c 128 then c else c + 2 ^ 32 - 256

pub sub32-sign_extend8_zero :
    (a b : ℕ) → a < 256 → b < 256 → sub32 (sign_extend8 a) (sign_extend8 b) ≡ 0 → a ≡ b
sub32-sign_extend8_zero a b ha hb h = ground arith
