-- ===== src/Files/Reading.antt =====
-- Reading an open file part by part (student-distrib/filesys.c).
use fuzzy_os.Base.{
  Memory, Word, add32, ap, arith, false, if◌then◌else◌, ltb, minus_one, refl, slt, some, sym, ℕ,
  ◌%◌, ◌+◌, ◌<◌, ◌==◌, ◌^◌, ◌∙◌, ◌≡◌, ◌≤◌,
}
use fuzzy_os.FileSystem.{read_data}
use fuzzy_os.FileSystem.Start.{file_byte}
use fuzzy_os.FileSystem.Within.{available, read_data_within}
use fuzzy_os.Files.{file_read, get_file_len}
use fuzzy_os.Kernel.{Kernel, entry, set_entry}

-- file_read where read_data, asked for the length that is left over, delivers `n` bytes.
pub file_read_of :
    (fd : ℕ) (buf buf' : Memory) (nbytes len n : Word) (k : Kernel)
    → slt nbytes 0 ≡ false
    → len ≡ (if slt (get_file_len k fd) nbytes then get_file_len k fd else nbytes)
    → read_data k.image (entry k fd).inode (entry k fd).file_position (some buf) len
      ≡ (n, some buf')
    → (n == minus_one) ≡ false
    → add32 (entry k fd).file_position n ≡ (entry k fd).file_position + n
    → file_read fd (some buf) nbytes k ≡ (
      n,
      some buf',
      set_entry fd (record (entry k fd) { file_position = (entry k fd).file_position + n }) k,
    )
unfolding file_read
file_read_of fd buf buf' nbytes len n k h l r m a =
    rw (h, sym l, file_read) (rw (r, file_read) (rw (m, a) refl))

-- A read of an open file that stays in one block: the bytes from the file's position on, as many as
-- are asked for and left; the position moves on by their number, and nothing else of the kernel
-- changes.
pub file_read_lem :
    (fd : ℕ) (buf : Memory) (nbytes : Word) (k : Kernel)
    → (entry k fd).inode ≤ 63
    → (entry k fd).file_position < 2 ^ 31
    → (entry k fd).file_position % 4096 + nbytes ≤ 4096
    → get_file_len k fd < 2 ^ 31
    → let n : ℕ = available k.image (entry k fd).inode (entry k fd).file_position nbytes in
      (buf' : Memory) × (file_read fd (some buf) nbytes k ≡ (
        n,
        some buf',
        set_entry fd (record (entry k fd) { file_position = (entry k fd).file_position + n }) k,
      ))
      × ((x : ℕ)
          → buf' x ≡ (
              if ltb x n
              then file_byte k.image (entry k fd).inode ((entry k fd).file_position + x)
              else buf x))
unfolding get_file_len
file_read_lem fd buf nbytes k i p f l =
    let len : Word = if slt (get_file_len k fd) nbytes then get_file_len k fd else nbytes in
    let (buf', e, b) =
      read_data_within k.image (entry k fd).inode (entry k fd).file_position buf len i p
        (ground arith) in
    let same : available k.image (entry k fd).inode (entry k fd).file_position len
        ≡ available k.image (entry k fd).inode (entry k fd).file_position nbytes =
      ground arith in
    (
      buf',
      file_read_of fd buf buf' nbytes len _ k (ground arith) refl
          (e ∙ ap (λ n. (n, some buf')) same) (ground arith) (ground arith),
      λ x. ground (arith, b x, same),
    )
