-- ===== src/FileSystem/Across.antt =====
-- read_data of student-distrib/filesys.c where a read that does not begin at the start of the file
-- runs into the second block: `position` starts again at zero there, and the test against the end
-- of the file, `offset + position >= length`, no longer sees the bytes of the first block.
use native.Mathlib.Decide.{dec_lt}
use fuzzy_os.Base.{
  Memory, arith, min, some, suc, update, zero, ℕ, ◌*◌, ◌+◌, ◌-◌, ◌<◌, ◌≡◌, ◌≢◌, ◌≤◌,
}
use fuzzy_os.FileSystem.{
  Cursor, data_block, data_byte, inode_length, max_dentries, next_block, read_data, read_loop,
  start_cursor,
}
use fuzzy_os.FileSystem.Steps.{read_loop_end, read_loop_step}

module _ (img : Memory) (inode offset : ℕ) (past : 0 < offset) (first : offset < 4096)
    (two : 4096 < inode_length img inode) (short : inode_length img inode ≤ 4096 + offset)
    (good : data_block img inode 1 ≢ 0) where
  -- the number of bytes at which the loop stops
  abbrev stop : ℕ
  stop = min (inode_length img inode) (inode_length img inode + 4096 - 2 * offset)

  abbrev second : ℕ → Cursor
  second p = record { position = p; tmp_offset = 0; block_idx = 1; block = data_block img inode 1 }

  abbrev opening : ℕ → Cursor
  opening p = record {
    position = p;
    tmp_offset = offset;
    block_idx = 0;
    block = data_block img inode 0;
  }

  second_loop :
      (k p n : ℕ) (buf : Memory)
      → n ≡ 4096 - offset + p
      → n ≤ stop
      → (read_loop img inode offset k n n (second p) buf).0 ≡ min (n + k) stop
  second_loop zero p n buf e h = unfold read_loop in omega arith
  second_loop (suc k) p n buf e h = elim (dec_lt n stop) [
    | no ended ↦
        rw (read_loop_end img inode offset k n n (second p) buf (ground arith)) (omega arith)
    | yes more ↦
        (let buf1 = update buf n (data_byte img (data_block img inode 1) 0 p) in
          let stay : next_block img inode (second p) ≡ some (second p) =
            unfold next_block in ground arith in
          rw
            (read_loop_step img inode offset k n n (second p) buf (second p) (omega arith)
              (omega arith) stay)
            (omega (arith, second_loop k (p + 1) (n + 1) buf1)))
  ]

  opening_loop :
      (k n : ℕ) (buf : Memory)
      → offset + n ≤ 4096
      → (read_loop img inode offset k n n (opening n) buf).0 ≡ min (n + k) stop
  opening_loop zero n buf h = unfold read_loop in omega arith
  opening_loop (suc k) n buf h = elim (dec_lt (offset + n) 4096) [
    | yes more ↦
        (let buf1 = update buf n (data_byte img (data_block img inode 0) offset n) in
          let stay : next_block img inode (opening n) ≡ some (opening n) =
            unfold next_block in ground arith in
          rw
            (read_loop_step img inode offset k n n (opening n) buf (opening n) (omega arith)
              (omega arith) stay)
            (omega (arith, opening_loop k (n + 1) buf1)))
    | no full ↦
        (let buf1 = update buf n (data_byte img (data_block img inode 1) 0 0) in
          let go : next_block img inode (opening n) ≡ some (second 0) =
            unfold next_block in ground arith in
          rw
            (read_loop_step img inode offset k n n (opening n) buf (second 0) (omega arith)
              (omega arith) go)
            (omega (arith, second_loop k 1 (n + 1) buf1)))
  ]

  -- A read that begins behind the first byte of the first block of a file, which ends in the second
  -- block no further than the offset into it (its length is over 4096 and at most 4096 plus the
  -- offset), with the second block named in the inode, and that asks for at least as many bytes as
  -- the file has, returns more bytes than the file has from its offset on.
  pub read_data_overreads :
      (buf : Memory) (n : ℕ)
      → inode ≤ max_dentries
      → inode_length img inode ≤ n
      → inode_length img inode < offset + (read_data img inode offset (some buf) n).0
  unfolding read_data start_cursor
  read_data_overreads buf n h all = ground (arith, opening_loop n 0 buf)
