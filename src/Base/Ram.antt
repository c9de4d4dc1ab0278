-- ===== src/Base/Ram.antt =====
-- Memory as a function from addresses (or offsets from a pointer) to bytes, and an array of
-- structures as a function from its index. A write gives a new function.
use Prim.Native.Nat.{ℕ, zero, suc, ◌+◌, ◌*◌, ◌%◌}
use mathlib.Core.Path.{◌≡◌}
use mathlib.Core.Logic.{◌≢◌}
use mathlib.Core.List.{List, [], ◌∷◌}
use native.Mathlib.Omega.{arith}
use fuzzy_os.Base.Tests.{◌==◌, if◌then◌else◌}
use fuzzy_os.Base.Lists.{get_or}

abbrev pub Memory : Type 0
Memory = ℕ → ℕ

abbrev pub update {ℓ} : {A : Type ℓ} → (ℕ → A) → ℕ → A → ℕ → A
update m a v x = if x == a then v else m x

pub update_self {ℓ} : {A : Type ℓ} (m : ℕ → A) (a : ℕ) (v : A) → update m a v a ≡ v
update_self m a v = ground arith

pub update_ne {ℓ} : {A : Type ℓ} (m : ℕ → A) (a x : ℕ) (v : A) → x ≢ a → update m a v x ≡ m x
update_ne m a x v h = ground arith

-- the `n` bytes from an address on
abbrev pub slice : Memory → ℕ → ℕ → List ℕ
slice m a zero = []
slice m a (suc n) = m a ∷ slice m (a + 1) n

-- a text in memory, with zeros behind it
abbrev pub bytes : List ℕ → Memory
bytes s i = get_or s i 0

-- a little-endian `uint32_t`
abbrev pub load32 : Memory → ℕ → ℕ
load32 m a = m a + 256 * m (a + 1) + 65536 * m (a + 2) + 16777216 * m (a + 3)

-- What has been written to the I/O ports, as pairs of a port and a byte, the last one first.
abbrev pub Ports : Type 0
Ports = List (ℕ × ℕ)

-- `outb(value, port)` writes the low byte.
abbrev pub out_byte : ℕ → ℕ → Ports → Ports
out_byte value port ports = (port, value % 256) ∷ ports
