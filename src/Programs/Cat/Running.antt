-- ===== src/Programs/Cat/Running.antt =====
-- The whole of syscalls/ece391cat.c on the modelled kernel.
use mathlib.Core.Path.{subst}
use fuzzy_os.Base.{
  List, Memory, Option, Ports, Word, ap, arith, bind_some, bytes, false, get_or, inl, inr, length,
  ltb, minus_one, refl, slice, some, sym, true, ℕ, ◌+◌, ◌<◌, ◌==◌, ◌^◌, ◌||◌, ◌∙◌, ◌≡◌, ◌≢◌, ◌≤◌,
}
use fuzzy_os.Clib.Strings.{strlen, strncpy}
use fuzzy_os.FileSystem.{Dentry, inode_length}
use fuzzy_os.FileSystem.Start.{file_byte}
use fuzzy_os.Files.{look_up, open_entry}
use fuzzy_os.Kernel.{FdaEntry, Kernel, entry, file_fops, get_pcb, set_entry, terminal_fops}
use fuzzy_os.Programs.Calls.{Calls, buffer_of, kernel_calls}
use fuzzy_os.Programs.Cat.{cat_loop, cat_main}
use fuzzy_os.Programs.Cat.Files.{EntryLeft, EntryLeft-of, FileLeft, KernelWrites, entry-set_entry}
use fuzzy_os.Programs.Cat.Kernel.{cat_loop-file}
use fuzzy_os.Syscalls.{Wait, getargs}
use fuzzy_os.Syscalls.Descriptors.{opened_as, sys_open_lem}

-- The inode has the bytes `t`.
pub record HasBytes (img : Memory) (inode : ℕ) (t : List ℕ) : Type 0 where
  pub inode_low : inode ≤ 63
  pub short : inode_length img inode < 2 ^ 31
  pub whole : length t ≡ inode_length img inode
  pub same : (i : ℕ) → i < length t → file_byte img inode i ≡ get_or t i 0

-- Descriptor 1 is the terminal, and a descriptor is free.
pub record CanOpen (k : Kernel) : Type 0 where
  pub screen : (entry k 1).fops ≡ terminal_fops
  pub screen_used : (entry k 1).flags ≢ 0
  pub free : (j : ℕ) × (2 ≤ j) × (j < 8) × ((entry k j).flags ≡ 0)

-- What main hands to open: the arguments, in its buffer.
abbrev pub argument : Memory → Kernel → List ℕ
argument buf k = slice (strncpy buf (bytes (get_pcb k).params) 1024) 0 1024

opened-FileLeft :
    (img : Memory) (fd inode : ℕ) (t : List ℕ) (k : Kernel)
    → 2 ≤ fd
    → k.image ≡ img
    → HasBytes img inode t
    → CanOpen k
    → FileLeft fd t (set_entry fd (open_entry file_fops inode 0) k)
opened-FileLeft img fd inode t k lo e h o =
    let t1 : (fd == fd) ≡ true = ground arith in
    let t2 : (1 == fd) ≡ false = ground arith in
    let new : FdaEntry = open_entry file_fops inode 0 in
    let left : EntryLeft img new (entry k 1) t = record {
      table = refl;
      used = omega arith;
      inode_low = h.inode_low;
      short = h.short;
      rest = omega (arith, h.whole);
      aligned = λ z. omega arith;
      same = λ i l. (let at : 0 + i ≡ i = omega arith in rw at (h.same i l));
      screen = o.screen;
      screen_used = o.screen_used;
    } in
    subst (λ i. EntryLeft i (entry (set_entry fd new k) fd) (entry (set_entry fd new k) 1) t)
      (sym e)
      (EntryLeft-of img new (entry (set_entry fd new k) fd) (entry k 1)
        (entry (set_entry fd new k) 1) t (entry-set_entry fd fd new k ∙ rw t1 refl)
        (entry-set_entry fd 1 new k ∙ rw t2 refl) left)

cat_main_of :
    {S : Type 0} (calls : Calls S) (fuel : ℕ) (fd : Word) (buf buf1 : Memory) (s s1 s2 : S)
    (r : Option (Word × S))
    → calls.getargs_call buf 1024 s ≡ some (0, buf1, s1)
    → calls.open_call (slice buf1 0 1024) s1 ≡ some (fd, s2)
    → (fd == minus_one) ≡ false
    → cat_loop calls fuel fd buf1 s2 ≡ r
    → cat_main calls fuel buf s ≡ r
unfolding cat_main
cat_main_of calls fuel fd buf buf1 s s1 s2 r a o big e =
    bind_some _ _ _ _ a (bind_some _ _ _ _ o (rw big e))

module _ (stack : Memory) (junk : Dentry) (read : Ports → ℕ → ℕ) (table : Word)
    (waiting : Kernel → Wait) (linkage : Word → Kernel → Option (Word × Kernel)) where
  getargs_given :
      (buf : Memory) (k : Kernel)
      → 0 < strlen (get_pcb k).params
      → strlen (get_pcb k).params ≤ 1024
      → getargs (some buf) 1024 k ≡ (0, some (strncpy buf (bytes (get_pcb k).params) 1024))
  unfolding getargs
  getargs_given buf k pos fits =
      let guard : (strlen (get_pcb k).params == 0 || ltb 1024 (strlen (get_pcb k).params)) ≡ false =
        ground arith in
      rw guard refl

  -- cat of a file that exists, in a process whose arguments fit into the buffer, whose descriptor 1
  -- is the terminal and that has a descriptor free, with more rounds than the file has bytes: main
  -- comes to its end and returns 0, and has written to the terminal exactly the bytes of the file,
  -- in order.
  pub cat_main-file :
      (fuel : ℕ) (t : List ℕ) (buf : Memory) (k : Kernel) (file : Dentry)
      → 0 < strlen (get_pcb k).params
      → strlen (get_pcb k).params ≤ 1024
      → look_up stack junk k (some (argument buf k)) ≡ (0, some file)
      → file.file_type ≡ 2
      → HasBytes k.image file.inode_num t
      → CanOpen k
      → length t < fuel
      → (k' : Kernel) × (cat_main (kernel_calls stack junk read table waiting linkage) fuel buf k
          ≡ some (0, k'))
        × KernelWrites t k k'
  unfolding kernel_calls
  cat_main-file fuel t buf k file pos fits found type_is h o long =
      let given = getargs_given buf k pos fits in
      elim (sys_open_lem stack junk read (argument buf k) file k found (inr type_is)) [
        | inl (full, e) ↦ (let (j, lo, hi, z) = o.free in absurd (full j lo hi z))
        | inr (fd, lo, hi, z, others, e) ↦
            (let opened : opened_as file ≡ open_entry file_fops file.inode_num 0 =
                rw type_is refl in
              let k1 : Kernel = set_entry fd (opened_as file) k in
              let left : FileLeft fd t k1 =
                subst (λ x. FileLeft fd t (set_entry fd x k)) (sym opened)
                  (opened-FileLeft k.image fd file.inode_num t k lo refl h o) in
              let (k', e2, w) =
                cat_loop-file stack junk read table waiting linkage fuel fd t
                  (strncpy buf (bytes (get_pcb k).params) 1024) k1 lo hi left long in
              let big : (fd == minus_one) ≡ false = ground arith in
              (
                k',
                cat_main_of (kernel_calls stack junk read table waiting linkage) fuel fd buf
                    (strncpy buf (bytes (get_pcb k).params) 1024) k k k1 (some (0, k'))
                    (ap (λ g. some (g.0, buffer_of buf g.1, k)) given) e big e2,
                w,
              ))
      ]
