-- ===== src/Base/Bits.antt =====
-- Bits of a byte, by a check of every value.
use Prim.Native.Nat.{ℕ, zero, suc, ◌/◌, ◌%◌, ◌^◌, ◌<◌}
use mathlib.Core.Path.{◌≡◌}
use mathlib.Core.Bool.{Bool, true, ◌&&◌}
use native.Mathlib.Omega.{arith}

-- Bit `j`, counted from the lowest.
abbrev pub bit : ℕ → ℕ → ℕ
bit x j = x / 2 ^ j % 2

-- The test holds of every number below `n`.
unfoldable pub every_below : ℕ → (ℕ → Bool) → Bool
every_below zero test = true
every_below (suc n) test = every_below n test && test n

pub every_below_sound :
    (n : ℕ) (test : ℕ → Bool) (i : ℕ) → every_below n test ≡ true → i < n → test i ≡ true
unfolding every_below
every_below_sound zero test i e l = absurd (omega arith)
every_below_sound (suc n) test i e l = ground (arith, every_below_sound n test i)
