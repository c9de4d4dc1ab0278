-- ===== src/Programs/Cat/Files.antt =====
-- An open file of the modelled kernel is a stream for syscalls/ece391cat.c.
use mathlib.Core.List.{append-nil, append_assoc}
use mathlib.Core.Path.{subst}
use fuzzy_os.Base.{
  Bool-cases, List, Memory, Word, [], ap, arith, drop, false, get_or, if◌then◌else◌, inl, inr,
  length, min, refl, slice, slt, some, suc, sym, true, zero, ℕ, ◌%◌, ◌++◌, ◌+◌, ◌<◌, ◌==◌, ◌^◌, ◌∙◌,
  ◌∷◌, ◌≡◌, ◌≢◌, ◌≤◌,
}
use fuzzy_os.Console.{Console, store_deleted_line, terminal_putc}
use fuzzy_os.Console.Input.{
  OnlyPrints, OnlyPrints-four, OnlyPrints-refl, OnlyPrints-trans, store_deleted_line-OnlyPrints,
  terminal_putc-OnlyPrints, update_cursor-OnlyPrints,
}
use fuzzy_os.FileSystem.{inode_length}
use fuzzy_os.FileSystem.Start.{file_byte}
use fuzzy_os.FileSystem.Within.{available, read_data_at_end}
use fuzzy_os.Files.{file_read, get_file_len}
use fuzzy_os.Files.Reading.{file_read_lem, file_read_of}
use fuzzy_os.Kernel.{FdaEntry, Kernel, entry, file_fops, pcb_address, set_entry, terminal_fops}
use fuzzy_os.Programs.Cat.Streams.{length-drop}
use fuzzy_os.TerminalDriver.{terminal_write, write_char, write_from}

-- What has been written to a terminal: terminal_write after terminal_write.
pub data Writes : List ℕ → Console → Console → Type 0 where
  nothing : (c : Console) → Writes [] c c
  write_more :
      (s : List ℕ) (buf : Memory) (n : ℕ) (c d : Console)
      → Writes s c d
      → Writes (s ++ slice buf 0 n) c (terminal_write (some buf) n d).1

pub Writes-trans :
    (a b : List ℕ) (c d e : Console) → Writes a c d → Writes b d e → Writes (a ++ b) c e
Writes-trans a _ c _ _ w (nothing d) = subst (λ s. Writes s c d) (sym (append-nil a)) w
Writes-trans a _ c _ _ w (write_more s buf n d e v) =
    subst (λ x. Writes x c (terminal_write (some buf) n e).1) (append_assoc a s (slice buf 0 n))
      (write_more (a ++ s) buf n c e (Writes-trans a s c d e w v))

write_char-OnlyPrints : (t ch : ℕ) (c : Console) → OnlyPrints c (write_char t ch c)
unfolding write_char
write_char-OnlyPrints t ch c = elim (Bool-cases (ch == 0)) [
  | inl e ↦ rw e (OnlyPrints-refl c)
  | inr e ↦ elim (Bool-cases (ch == 9)) [
    | inl f ↦ rw (e, f) (OnlyPrints-four (terminal_putc 32 t) (terminal_putc-OnlyPrints 32 t) c)
    | inr f ↦ rw (e, f) (terminal_putc-OnlyPrints ch t c)
  ]
]

write_from-OnlyPrints :
    (t : ℕ) (buf : Memory) (n i : ℕ) (c : Console) → OnlyPrints c (write_from t buf n i c)
unfolding write_from
write_from-OnlyPrints t buf zero i c = OnlyPrints-refl c
write_from-OnlyPrints t buf (suc n) i c =
    OnlyPrints-trans c (write_char t (buf i) c) _ (write_char-OnlyPrints t (buf i) c)
      (write_from-OnlyPrints t buf n (i + 1) (write_char t (buf i) c))

pub terminal_write-OnlyPrints :
    (buf : Memory) (n : Word) (c : Console) → OnlyPrints c (terminal_write (some buf) n c).1
unfolding terminal_write
terminal_write-OnlyPrints buf n c =
    let m : ℕ = if slt n 0 then 0 else n in
    let d : Console = write_from c.execute buf m 0 c in
    OnlyPrints-trans c d _ (write_from-OnlyPrints c.execute buf m 0 c) (
      OnlyPrints-trans d (store_deleted_line d) _ (store_deleted_line-OnlyPrints d)
        (update_cursor-OnlyPrints (store_deleted_line d)))

-- The descriptor `e` of a file has the bytes `t` left, and a position from which a part of 1024 bytes
-- lies in one block; `d` is the terminal's.
pub record EntryLeft (img : Memory) (e d : FdaEntry) (t : List ℕ) : Type 0 where
  pub table : e.fops ≡ file_fops
  pub used : e.flags ≢ 0
  pub inode_low : e.inode ≤ 63
  pub short : inode_length img (e.inode) < 2 ^ 31
  pub rest : e.file_position + length t ≡ inode_length img (e.inode)
  pub aligned : length t ≢ 0 → e.file_position % 1024 ≡ 0
  pub same : (i : ℕ) → i < length t → file_byte img (e.inode) (e.file_position + i) ≡ get_or t i 0
  pub screen : d.fops ≡ terminal_fops
  pub screen_used : d.flags ≢ 0

-- The descriptor `fd` has the bytes `t` left, and descriptor 1 is the terminal.
abbrev pub FileLeft : ℕ → List ℕ → Kernel → Type 0
FileLeft fd t k = EntryLeft k.image (entry k fd) (entry k 1) t

-- The console of the second kernel is that of the first after the text has been written.
abbrev pub KernelWrites : List ℕ → Kernel → Kernel → Type 0
KernelWrites s k k' = Writes s k.keys.con k'.keys.con

pub entry-set_entry :
    (fd j : ℕ) (e : FdaEntry) (k : Kernel)
    → entry (set_entry fd e k) j ≡ (if j == fd then e else entry k j)
entry-set_entry fd j e k = ground arith

pub EntryLeft-of :
    (img : Memory) (e e' d d' : FdaEntry) (t : List ℕ)
    → e' ≡ e
    → d' ≡ d
    → EntryLeft img e d t
    → EntryLeft img e' d' t
EntryLeft-of img e e' d d' t p q h =
    subst (λ x. EntryLeft img x d' t) (sym p) (subst (λ x. EntryLeft img e x t) (sym q) h)

get_or-drop : (t : List ℕ) (n i : ℕ) → get_or (drop n t) i 0 ≡ get_or t (n + i) 0
get_or-drop t zero i = ground arith
get_or-drop [] (suc n) i = refl
get_or-drop (c ∷ t) (suc n) i = ground (arith, get_or-drop t n i)

-- The file once `n` of the bytes that are left have been read.
EntryLeft-drop :
    (img : Memory) (e d : FdaEntry) (n : ℕ) (t : List ℕ)
    → n ≡ min 1024 (length t)
    → EntryLeft img e d t
    → EntryLeft img (record e { file_position = e.file_position + n }) d (drop n t)
EntryLeft-drop img e d n t m l = record {
  table = l.table;
  used = l.used;
  inode_low = l.inode_low;
  short = l.short;
  rest = omega (arith, length-drop t n, l.rest);
  aligned = λ h.
      (let a : e.file_position % 1024 ≡ 0 = l.aligned (ground (arith, length-drop t n)) in
        let b : n ≡ 1024 = ground (arith, length-drop t n) in omega arith);
  same = λ i h. ground (arith, get_or-drop t n i, l.same (n + i) (ground (arith, length-drop t n)));
  screen = l.screen;
  screen_used = l.screen_used;
}

pub FileLeft-drop :
    (fd n : ℕ) (t : List ℕ) (k : Kernel)
    → fd ≢ 1
    → n ≡ min 1024 (length t)
    → FileLeft fd t k
    → FileLeft fd
        (drop n t)
        (set_entry fd (record (entry k fd) { file_position = (entry k fd).file_position + n }) k)
FileLeft-drop fd n t k ne m l =
    let e' : FdaEntry = record (entry k fd) { file_position = (entry k fd).file_position + n } in
    let t1 : (fd == fd) ≡ true = ground arith in
    let t2 : (1 == fd) ≡ false = ground arith in
    EntryLeft-of k.image e' (entry (set_entry fd e' k) fd) (entry k 1) (entry (set_entry fd e' k) 1)
      (drop n t) (entry-set_entry fd fd e' k ∙ rw t1 refl) (entry-set_entry fd 1 e' k ∙ rw t2 refl)
      (EntryLeft-drop k.image (entry k fd) (entry k 1) n t m l)

-- Printing leaves the descriptors alone.
pub FileLeft-prints :
    (fd : ℕ) (t : List ℕ) (k : Kernel) (c : Console)
    → OnlyPrints k.keys.con c
    → FileLeft fd t k
    → FileLeft fd t (record k { keys = record (k.keys) { con = c } })
FileLeft-prints fd t k c o l =
    let k' : Kernel = record k { keys = record (k.keys) { con = c } } in
    let same : (j : ℕ) → entry k' j ≡ entry k j =
      λ j. ap (λ x. (k.pcbs (pcb_address x (k.process_num x))).fda j) o.execute in
    EntryLeft-of k.image (entry k fd) (entry k' fd) (entry k 1) (entry k' 1) t (same fd) (same 1) l

-- Nothing is read at the end of the file.
pub file_read_at_end :
    (fd : ℕ) (buf : Memory) (k : Kernel)
    → FileLeft fd [] k
    → file_read fd (some buf) 1024 k ≡ (
      0,
      some buf,
      set_entry fd (record (entry k fd) { file_position = (entry k fd).file_position + 0 }) k,
    )
unfolding get_file_len
file_read_at_end fd buf k l =
    let low : (entry k fd).file_position < 2 ^ 31 = omega (arith, l.rest, l.short) in
    file_read_of fd buf buf 1024 (if slt (get_file_len k fd) 1024 then get_file_len k fd else 1024)
      0 k refl refl
      (read_data_at_end k.image (entry k fd).inode (entry k fd).file_position buf _ l.inode_low low
        (omega (arith, l.rest)))
      refl (omega (arith, low))

-- A part of the file.
pub file_read_part :
    (fd : ℕ) (t : List ℕ) (buf : Memory) (k : Kernel)
    → FileLeft fd t k
    → length t ≢ 0
    → (n : ℕ) × (buf' : Memory) × (n ≡ min 1024 (length t))
      × (file_read fd (some buf) 1024 k ≡ (
        n,
        some buf',
        set_entry fd (record (entry k fd) { file_position = (entry k fd).file_position + n }) k,
      ))
      × ((i : ℕ) → i < n → buf' i ≡ get_or t i 0)
unfolding get_file_len
file_read_part fd t buf k l h =
    let (buf', e, b) =
      file_read_lem fd buf 1024 k l.inode_low (omega (arith, l.rest, l.short))
        (omega (arith, l.aligned h)) l.short in
    let m : available k.image (entry k fd).inode (entry k fd).file_position 1024
        ≡ min 1024 (length t) =
      omega (arith, l.rest) in
    (_, buf', m, e, λ i q. ground (arith, b i, m, l.same i))
