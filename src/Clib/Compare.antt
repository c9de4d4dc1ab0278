-- ===== src/Clib/Compare.antt =====
-- What strncmp of student-distrib/lib.c decides.
use fuzzy_os.Base.{Memory, arith, refl, sub32-sign_extend8_zero, suc, zero, ℕ, ◌+◌, ◌<◌, ◌≡◌, ◌⊎◌}
use fuzzy_os.Clib.Strings.{strncmp, strncmp_from}

-- The texts agree byte for byte over the next `k` bytes from `i` on, or up to a common NUL.
abbrev pub AgreeFrom : Memory → Memory → ℕ → ℕ → Type 0
AgreeFrom s1 s2 zero i = Unit
AgreeFrom s1 s2 (suc k) i = (s1 i ≡ s2 i) × ((s1 i ≡ 0) ⊎ AgreeFrom s1 s2 k (i + 1))

-- Every byte of the memory is a byte.
abbrev pub IsBytes : Memory → Type 0
IsBytes m = (i : ℕ) → m i < 256

strncmp_from-zero :
    (s1 s2 : Memory) (k i : ℕ)
    → IsBytes s1
    → IsBytes s2
    → strncmp_from s1 s2 k i ≡ 0
    → AgreeFrom s1 s2 k i
unfolding strncmp_from
strncmp_from-zero s1 s2 zero i b1 b2 h = tt
strncmp_from-zero s1 s2 (suc k) i b1 b2 h = ground (
  arith,
  b1 i,
  b2 i,
  sub32-sign_extend8_zero (s1 i) (s2 i),
  strncmp_from-zero s1 s2 k (i + 1) b1 b2,
)

strncmp_from-agree : (s1 s2 : Memory) (k i : ℕ) → AgreeFrom s1 s2 k i → strncmp_from s1 s2 k i ≡ 0
unfolding strncmp_from
strncmp_from-agree s1 s2 zero i h = refl
strncmp_from-agree s1 s2 (suc k) i h = ground (arith, strncmp_from-agree s1 s2 k (i + 1))

-- On bytes, strncmp returns zero exactly when the two texts agree over their first `n` bytes or
-- up to a common NUL before that.
pub strncmp-zero_iff :
    (s1 s2 : Memory) (n : ℕ)
    → IsBytes s1
    → IsBytes s2
    → (strncmp s1 s2 n ≡ 0 → AgreeFrom s1 s2 n 0) × (AgreeFrom s1 s2 n 0 → strncmp s1 s2 n ≡ 0)
unfolding strncmp
strncmp-zero_iff s1 s2 n b1 b2 = (strncmp_from-zero s1 s2 n 0 b1 b2, strncmp_from-agree s1 s2 n 0)
