-- ===== src/Clib/Moves.antt =====
-- The block routines of student-distrib/lib.c against the copy and the fill that they stand for.
use fuzzy_os.Base.{
  Memory, arith, if◌then◌else◌, leb, ltb, suc, update, zero, ℕ, ◌%◌, ◌&&◌, ◌*◌, ◌+◌, ◌-◌, ◌/◌, ◌<◌,
  ◌≡◌, ◌≤◌, ◌⊎◌,
}
use fuzzy_os.Clib.Blocks.{
  copy_bytes, copy_dwords, fill_bytes, fill_dwords, memcpy, memcpy_aligned, memmove, memset,
  memset_aligned, memset_from, move_down, write4,
}

-- The byte at `x` once `n` bytes have been copied from `src` to `dst` at one stroke.
abbrev pub moved : Memory → ℕ → ℕ → ℕ → ℕ → ℕ
moved m dst src n x = if leb dst x && ltb x (dst + n) then m (src + (x - dst)) else m x

-- The byte at `x` once `n` bytes from `dst` on have been set.
abbrev pub filled : Memory → ℕ → ℕ → ℕ → ℕ → ℕ
filled m dst v n x = if leb dst x && ltb x (dst + n) then v else m x

-- Going up reads no byte that it has written.
abbrev pub IsUpward : ℕ → ℕ → ℕ → Type 0
IsUpward dst src n = (dst ≤ src) ⊎ (src + n ≤ dst)

copy_bytes_lem :
    (m : Memory) (d s n x : ℕ) → IsUpward d s n → copy_bytes m d s n x ≡ moved m d s n x
unfolding copy_bytes
copy_bytes_lem m d s zero x h = ground arith
copy_bytes_lem m d s (suc n) x h =
    ground (arith, copy_bytes_lem (update m d (m s)) (d + 1) (s + 1) n x)

abbrev written4 : Memory → ℕ → ℕ → Memory
written4 m d s = write4 m d (m s) (m (s + 1)) (m (s + 2)) (m (s + 3))

written4_lem : (m : Memory) (d s x : ℕ) → written4 m d s x ≡ moved m d s 4 x
written4_lem m d s x = ground arith

copy_dwords_lem :
    (m : Memory) (d s n x : ℕ)
    → IsUpward d s (4 * n)
    → copy_dwords m d s n x ≡ moved m d s (4 * n) x
unfolding copy_dwords
copy_dwords_lem m d s zero x h = ground arith
copy_dwords_lem m d s (suc n) x h = ground (
  arith,
  copy_dwords_lem (written4 m d s) (d + 4) (s + 4) n x,
  written4_lem m d s x,
  written4_lem m d s (s + 4 + (x - (d + 4))),
)

memcpy_aligned_lem :
    (m : Memory) (d s n x : ℕ) → IsUpward d s n → memcpy_aligned m d s n x ≡ moved m d s n x
unfolding memcpy_aligned
memcpy_aligned_lem m d s n x h = ground (
  arith,
  copy_bytes_lem (copy_dwords m d s (n / 4)) (d + 4 * (n / 4)) (s + 4 * (n / 4)) (n % 4) x,
  copy_dwords_lem m d s (n / 4) x,
  copy_dwords_lem m d s (n / 4) (s + 4 * (n / 4) + (x - (d + 4 * (n / 4)))),
)

-- memcpy copies the block at one stroke when the destination lies below the source or does not
-- overlap it; the alignment loop, the words and the last bytes leave no trace.
pub memcpy_lem : (m : Memory) (d s n x : ℕ) → IsUpward d s n → memcpy m d s n x ≡ moved m d s n x
unfolding memcpy
memcpy_lem m d s zero x h = ground arith
memcpy_lem m d s (suc n) x h =
    ground
      (arith, memcpy_aligned_lem m d s (suc n) x, memcpy_lem (update m d (m s)) (d + 1) (s + 1) n x)

move_down_lem : (m : Memory) (d s n x : ℕ) → s < d → move_down m d s n x ≡ moved m d s n x
unfolding move_down
move_down_lem m d s zero x h = ground arith
move_down_lem m d s (suc n) x h =
    ground (arith, move_down_lem (update m (d + n) (m (s + n))) d s n x)

-- memmove copies the block at one stroke wherever the two blocks lie.
pub memmove_lem : (m : Memory) (d s n x : ℕ) → memmove m d s n x ≡ moved m d s n x
unfolding memmove
memmove_lem m d s n x = ground (arith, move_down_lem m d s n x, copy_bytes_lem m d s n x)

fill_bytes_lem : (m : Memory) (d v n x : ℕ) → fill_bytes m d v n x ≡ filled m d v n x
unfolding fill_bytes
fill_bytes_lem m d v zero x = ground arith
fill_bytes_lem m d v (suc n) x = ground (arith, fill_bytes_lem (update m d v) (d + 1) v n x)

fill_dwords_lem : (m : Memory) (d v n x : ℕ) → fill_dwords m d v v v v n x ≡ filled m d v (4 * n) x
unfolding fill_dwords
fill_dwords_lem m d v zero x = ground arith
fill_dwords_lem m d v (suc n) x = ground (arith, fill_dwords_lem (write4 m d v v v v) (d + 4) v n x)

memset_aligned_lem : (m : Memory) (d v n x : ℕ) → memset_aligned m d v n x ≡ filled m d v n x
unfolding memset_aligned
memset_aligned_lem m d v n x = ground (
  arith,
  fill_bytes_lem (fill_dwords m d v v v v (n / 4)) (d + 4 * (n / 4)) v (n % 4) x,
  fill_dwords_lem m d v (n / 4) x,
)

memset_from_lem : (m : Memory) (d v n x : ℕ) → memset_from m d v n x ≡ filled m d v n x
unfolding memset_from
memset_from_lem m d v zero x = ground arith
memset_from_lem m d v (suc n) x =
    ground (arith, memset_aligned_lem m d v (suc n) x, memset_from_lem (update m d v) (d + 1) v n x)

-- memset sets exactly the `n` bytes from `s` on to the low byte of `c`.
pub memset_lem : (m : Memory) (s c n x : ℕ) → memset m s c n x ≡ filled m s (c % 256) n x
unfolding memset
memset_lem m s c n x = memset_from_lem m s (c % 256) n x
