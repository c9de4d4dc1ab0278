-- ===== src/FileSystem/Start.antt =====
-- read_data of student-distrib/filesys.c from the start of a file, over any number of blocks.
use native.Mathlib.Decide.{dec_lt}
use fuzzy_os.Base.{
  Bool-cases, Memory, Word, add32, arith, if◌then◌else◌, inl, inr, leb, ltb, min, refl, some, suc,
  update, zero, ℕ, ◌%◌, ◌&&◌, ◌*◌, ◌+◌, ◌-◌, ◌/◌, ◌<◌, ◌≡◌, ◌≢◌, ◌≤◌,
}
use fuzzy_os.FileSystem.{
  Cursor, data_block, data_byte, inode_length, max_dentries, next_block, read_data, read_loop,
  start_cursor,
}
use fuzzy_os.FileSystem.Steps.{read_loop_end, read_loop_step}

-- Byte `x` of a file: byte `x % 4096` of the block that entry `x / 4096` of its inode names.
abbrev pub file_byte : Memory → ℕ → ℕ → ℕ
file_byte img inode x = data_byte img (data_block img inode (x / 4096)) 0 (x % 4096)

-- The cursor stands before byte `i`, of a file that is read from its start.
abbrev IsAt : Memory → ℕ → ℕ → Cursor → Type 0
IsAt img inode i c =
    (c.block_idx * 4096 + c.position ≡ i)
    × (c.position ≤ 4096)
    × (c.tmp_offset ≡ 0)
    × (c.block ≡ data_block img inode c.block_idx)

-- A file no longer than its inode has entries for, in which no entry after the first is zero.
abbrev pub IsStored : Memory → ℕ → Type 0
IsStored img inode =
    (inode_length img inode ≤ 1023 * 4096)
    × ((b : ℕ) → 0 < b → b * 4096 < inode_length img inode → data_block img inode b ≢ 0)

next_block_at :
    (img : Memory) (inode i : ℕ) (c : Cursor)
    → IsStored img inode
    → i < inode_length img inode
    → IsAt img inode i c
    → (c' : Cursor) × (next_block img inode c ≡ some c')
      × (c'.block_idx ≡ i / 4096)
      × (c'.position ≡ i % 4096)
      × (c'.tmp_offset ≡ 0)
      × (c'.block ≡ data_block img inode (i / 4096))
unfolding next_block
next_block_at img inode i c s lt at = elim (Bool-cases (leb 4096 (add32 c.position c.tmp_offset))) [
  | inl full ↦ (
    record {
      position = 0;
      tmp_offset = 0;
      block_idx = c.block_idx + 1;
      block = data_block img inode (c.block_idx + 1);
    },
    ground (arith, s.1 (c.block_idx + 1)),
    ground arith,
    ground arith,
    refl,
    ground arith,
  )
  | inr more ↦ (c, ground arith, ground arith, ground arith, ground arith, ground arith)
]

-- What the loop has done when it has stopped, started before byte `i` with `k` rounds left.
abbrev ReadFrom : Memory → ℕ → ℕ → ℕ → Memory → Word × Memory → Type 0
ReadFrom img inode k i buf (n, buf') =
    (n ≡ i + min k (inode_length img inode - i))
    × ((x : ℕ)
        → buf' x ≡ (
            if leb i x && ltb x (i + min k (inode_length img inode - i))
            then file_byte img inode x
            else buf x))

read_loop_at :
    (img : Memory) (inode : ℕ)
    → IsStored img inode
    → (k i : ℕ) (c : Cursor) (buf : Memory) → IsAt img inode i c
    → ReadFrom img inode k i buf (read_loop img inode 0 k i i c buf)
read_loop_at img inode s zero i c buf at = unfold read_loop in (omega arith, λ x. ground arith)
read_loop_at img inode s (suc k) i c buf at = elim (dec_lt i (inode_length img inode)) [
  | no ended ↦
      rw (read_loop_end img inode 0 k i i c buf (inl (omega arith)))
        (omega arith, λ x. ground arith)
  | yes more ↦
      (let (c', e, b, p, t, bl) = next_block_at img inode i c s more at in
        let next = record c' { position = c'.position + 1 } in
        let buf1 = update buf i (data_byte img c'.block c'.tmp_offset c'.position) in
        let at' : IsAt img inode (i + 1) next = ground arith in
        let ih = read_loop_at img inode s k (i + 1) next buf1 at' in
        rw (read_loop_step img inode 0 k i i c buf c' more (ground arith) e)
          (omega (arith, ih.0), λ x. ground (arith, ih.1 x)))
]

-- Reading `n` bytes from the start of a stored file fills the buffer with the first `min n length`
-- bytes of the file, over as many blocks as these take, returns their number, and leaves the rest
-- of the buffer as it was.
pub read_data_from_start :
    (img : Memory) (inode : ℕ) (buf : Memory) (n : ℕ)
    → inode ≤ max_dentries
    → IsStored img inode
    → (buf' : Memory) × (read_data img inode 0 (some buf) n
        ≡ (min n (inode_length img inode), some buf'))
      × ((x : ℕ)
          → buf' x
            ≡ (if ltb x (min n (inode_length img inode)) then file_byte img inode x else buf x))
unfolding read_data start_cursor
read_data_from_start img inode buf n h s =
    (r.1, ground (arith, read.0), λ x. ground (arith, read.1 x))
  where
    first : Cursor
    first = record { position = 0; tmp_offset = 0; block_idx = 0; block = data_block img inode 0 }

    r : Word × Memory
    r = read_loop img inode 0 n 0 0 first buf

    read : ReadFrom img inode n 0 buf r
    read = read_loop_at img inode s n 0 first buf (ground arith)
