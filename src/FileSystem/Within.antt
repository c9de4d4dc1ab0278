-- ===== src/FileSystem/Within.antt =====
-- read_data of student-distrib/filesys.c where the bytes asked for lie in one block, at any offset
-- of the file: the reads of a program that goes through a file in parts of a block.
use native.Mathlib.Decide.{dec_lt}
use fuzzy_os.Base.{
  Memory, Word, ap, arith, false, if◌then◌else◌, inr, leb, ltb, min, refl, some, suc, update, zero,
  ℕ, ◌%◌, ◌&&◌, ◌+◌, ◌-◌, ◌/◌, ◌<◌, ◌^◌, ◌≡◌, ◌≤◌,
}
use fuzzy_os.FileSystem.{
  Cursor, data_block, data_byte, inode_length, max_dentries, next_block, read_data, read_loop,
  start_cursor,
}
use fuzzy_os.FileSystem.Start.{file_byte}
use fuzzy_os.FileSystem.Steps.{read_loop_end, read_loop_step}

-- How many bytes a read may deliver: the bytes asked for, up to the end of the file.
abbrev pub available : Memory → ℕ → ℕ → ℕ → ℕ
available img inode offset n = min n (inode_length img inode - offset)

module _ (img : Memory) (inode offset tmp block : ℕ) where
  abbrev cursor_at : ℕ → Cursor
  cursor_at i = record { position = i; tmp_offset = tmp; block_idx = 0; block = block }

  abbrev pub ReadWithin : ℕ → ℕ → Memory → Word × Memory → Type 0
  ReadWithin k i buf (n, buf') =
      (n ≡ i + min k (inode_length img inode - offset - i))
      × ((x : ℕ)
          → buf' x ≡ (
              if leb i x && ltb x (i + min k (inode_length img inode - offset - i))
              then data_byte img block tmp x
              else buf x))

  pub read_loop_within :
      (k i : ℕ) (buf : Memory)
      → tmp + i + k ≤ 4096
      → offset + i + k < 2 ^ 32
      → ReadWithin k i buf (read_loop img inode offset k i i (cursor_at i) buf)
  read_loop_within zero i buf h l = unfold read_loop in (omega arith, λ x. ground arith)
  read_loop_within (suc k) i buf h l = elim (dec_lt (offset + i) (inode_length img inode)) [
    | no ended ↦
        rw (read_loop_end img inode offset k i i (cursor_at i) buf (inr (omega arith)))
          (omega arith, λ x. ground arith)
    | yes more ↦
        (let buf1 = update buf i (data_byte img block tmp i) in
          let ih = read_loop_within k (i + 1) buf1 (omega arith) (omega arith) in
          let e : next_block img inode (cursor_at i) ≡ some (cursor_at i) =
            unfold next_block in ground arith in
          rw
            (read_loop_step img inode offset k i i (cursor_at i) buf (cursor_at i) (omega arith)
              (omega arith) e)
            (omega (arith, ih.0), λ x. ground (arith, ih.1 x)))
  ]

-- A read that stays inside one block delivers the bytes of the file from its offset on, as many
-- as are asked for and left in the file, and leaves the rest of the buffer as it was.
pub read_data_within :
    (img : Memory) (inode offset : ℕ) (buf : Memory) (n : ℕ)
    → inode ≤ max_dentries
    → offset < 2 ^ 31
    → offset % 4096 + n ≤ 4096
    → (buf' : Memory) × (read_data img inode offset (some buf) n
        ≡ (available img inode offset n, some buf'))
      × ((x : ℕ)
          → buf' x ≡ (
              if ltb x (available img inode offset n)
              then file_byte img inode (offset + x)
              else buf x))
unfolding read_data start_cursor data_byte
read_data_within img inode offset buf n h lo fits =
    (r.1, ground (arith, read.0), λ x. ground (arith, read.1 x))
  where
    tmp : ℕ
    tmp = offset % 4096

    block : ℕ
    block = data_block img inode (offset / 4096)

    r : Word × Memory
    r = read_loop img inode offset n 0 0 (cursor_at img inode offset tmp block 0) buf

    read : ReadWithin img inode offset tmp block n 0 buf r
    read = read_loop_within img inode offset tmp block n 0 buf (omega arith) (omega arith)

start_cursor-position :
    (img : Memory) (inode offset : ℕ) → (start_cursor img inode offset).position ≡ 0
unfolding start_cursor
start_cursor-position img inode offset = ground arith

-- A read at the end of the file, or behind it, delivers nothing.
pub read_data_at_end :
    (img : Memory) (inode offset : ℕ) (buf : Memory) (n : ℕ)
    → inode ≤ max_dentries
    → offset < 2 ^ 31
    → inode_length img inode ≤ offset
    → read_data img inode offset (some buf) n ≡ (0, some buf)
unfolding read_data
read_data_at_end img inode offset buf n i l h =
    let t : ltb max_dentries inode ≡ false = ground arith in
    rw t (ap (λ r. (r.0, some r.1)) (stops n))
  where
    stops :
        (n : ℕ) → read_loop img inode offset n 0 0 (start_cursor img inode offset) buf ≡ (0, buf)
    stops zero = unfold read_loop in refl
    stops (suc n) =
        read_loop_end img inode offset n 0 0 (start_cursor img inode offset) buf
          (inr (omega (arith, start_cursor-position img inode offset)))
