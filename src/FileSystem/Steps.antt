-- ===== src/FileSystem/Steps.antt =====
-- One round of the loop of read_data (student-distrib/filesys.c), on each of its branches.
use fuzzy_os.Base.{
  Memory, add32, arith, minus_one, none, some, suc, update, ℕ, ◌+◌, ◌<◌, ◌≡◌, ◌≤◌, ◌⊎◌,
}
use fuzzy_os.FileSystem.{Cursor, data_byte, inode_length, next_block, read_loop}

module _ (img : Memory) (inode offset k i n : ℕ) (c : Cursor) (buf : Memory) where
  -- The end of the file stops the loop.
  pub read_loop_end :
      (inode_length img inode ≤ n) ⊎ (inode_length img inode ≤ add32 offset c.position)
      → read_loop img inode offset (suc k) i n c buf ≡ (n, buf)
  unfolding read_loop
  read_loop_end h = ground arith

  -- A bad block number is an error.
  pub read_loop_bad :
      n < inode_length img inode
      → add32 offset c.position < inode_length img inode
      → next_block img inode c ≡ none
      → read_loop img inode offset (suc k) i n c buf ≡ (minus_one, buf)
  unfolding read_loop
  read_loop_bad h1 h2 e = ground arith

  -- Otherwise one byte is copied.
  pub read_loop_step :
      (c' : Cursor)
      → n < inode_length img inode
      → add32 offset c.position < inode_length img inode
      → next_block img inode c ≡ some c'
      → read_loop img inode offset (suc k) i n c buf
        ≡ read_loop img inode offset k
            (i + 1)
            (n + 1)
            (record c' { position = c'.position + 1 })
            (update buf i (data_byte img c'.block c'.tmp_offset c'.position))
  unfolding read_loop
  read_loop_step c' h1 h2 e = ground arith
