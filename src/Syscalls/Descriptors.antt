-- ===== src/Syscalls/Descriptors.antt =====
-- Descriptors (student-distrib/system_call.c): open takes the lowest free one, close gives it back.
use mathlib.Core.Path.{subst}
use native.Mathlib.Decide.{dec_lt}
use fuzzy_os.Base.{
  ==_iff, Bool-cases, List, Memory, Option, Option-cases, Ports, arith, if◌then◌else◌, inl, inr,
  minus_one, none, refl, some, suc, zero, ℕ, ◌+◌, ◌<◌, ◌==◌, ◌≡◌, ◌≢◌, ◌≤◌, ◌⊎◌,
}
use fuzzy_os.FileSystem.{Dentry}
use fuzzy_os.Files.{dir_open, file_open, look_up, open_entry}
use fuzzy_os.Kernel.{FdaEntry, Kernel, directory_fops, entry, file_fops, get_pcb, set_entry}
use fuzzy_os.Syscalls.{find_free, open_kind, sys_open}

-- What the loop of open has found from `i` on.
abbrev pub FoundFree : (ℕ → FdaEntry) → ℕ → ℕ → Option ℕ → Type 0
FoundFree fda n i none = (j : ℕ) → i ≤ j → j < i + n → (fda j).flags ≢ 0
FoundFree fda n i (some fd) =
    (i ≤ fd) × (fd < i + n) × ((fda fd).flags ≡ 0) × ((j : ℕ) → i ≤ j → j < fd → (fda j).flags ≢ 0)

FoundFree-cons :
    (fda : ℕ → FdaEntry) (n i : ℕ) (o : Option ℕ)
    → (fda i).flags ≢ 0
    → FoundFree fda n (i + 1) o
    → FoundFree fda (suc n) i o
FoundFree-cons fda n i none used f = λ j lo hi. elim (dec_lt i j) [
  | yes p ↦ f j (omega arith) (omega arith)
  | no p ↦ (let e : i ≡ j = omega arith in subst (λ x. (fda x).flags ≢ 0) e used)
]
FoundFree-cons fda n i (some fd) used f = (
  omega arith,
  omega arith,
  f.2,
  λ j lo hi. elim (dec_lt i j) [
    | yes p ↦ f.3 j (omega arith) hi
    | no p ↦ (let e : i ≡ j = omega arith in subst (λ x. (fda x).flags ≢ 0) e used)
  ],
)

pub find_free-FoundFree : (fda : ℕ → FdaEntry) (n i : ℕ) → FoundFree fda n i (find_free fda n i)
unfolding find_free
find_free-FoundFree fda zero i = λ j lo hi. absurd (omega arith)
find_free-FoundFree fda (suc n) i = elim (Bool-cases ((fda i).flags == 0)) [
  | inl e ↦ rw e (omega arith, omega arith, (==_iff _ _).0 e, λ j lo hi. absurd (omega arith))
  | inr e ↦ rw e (
      FoundFree-cons fda n i (find_free fda n (i + 1)) (ground arith)
        (find_free-FoundFree fda n (i + 1)))
]

-- The descriptor that a file or a directory gets.
abbrev pub opened_as : Dentry → FdaEntry
opened_as file =
    if file.file_type == 2
    then open_entry file_fops file.inode_num 0
    else open_entry directory_fops minus_one 0

module _ (stack : Memory) (junk : Dentry) (read : Ports → ℕ → ℕ) (filename : List ℕ)
    (file : Dentry) where
  open_kind_lem :
      (k : Kernel) (fd : ℕ)
      → look_up stack junk k (some filename) ≡ (0, some file)
      → (file.file_type ≡ 1) ⊎ (file.file_type ≡ 2)
      → open_kind stack junk read file.file_type fd (some filename) k
        ≡ some (0, set_entry fd (opened_as file) k)
  unfolding open_kind file_open dir_open
  open_kind_lem k fd e t = elim t [ inl d ↦ rw d refl | inr f ↦ rw (f, e, file_open) (rw e refl) ]

  -- A name that stands for a directory or a file is opened: if the descriptors 2 to 7 are all in
  -- use, the call returns -1 and changes nothing; or it returns the lowest one that is free, which
  -- then stands for the directory, or for the file from its first byte on, and no other changes.
  pub sys_open_lem :
      (k : Kernel)
      → look_up stack junk k (some filename) ≡ (0, some file)
      → (file.file_type ≡ 1) ⊎ (file.file_type ≡ 2)
      → (((j : ℕ) → 2 ≤ j → j < 8 → (entry k j).flags ≢ 0)
          × (sys_open stack junk read (some filename) k ≡ some (minus_one, k)))
        ⊎ ((fd : ℕ) × (2 ≤ fd)
            × (fd < 8)
            × ((entry k fd).flags ≡ 0)
            × ((j : ℕ) → 2 ≤ j → j < fd → (entry k j).flags ≢ 0)
            × (sys_open stack junk read (some filename) k
                ≡ some (fd, set_entry fd (opened_as file) k)))
  unfolding sys_open
  sys_open_lem k e t = elim (Option-cases (find_free (get_pcb k).fda 6 2)) [
    | inl none_free ↦
        (let f : FoundFree (get_pcb k).fda 6 2 none =
            subst (FoundFree (get_pcb k).fda 6 2) none_free
              (find_free-FoundFree (get_pcb k).fda 6 2) in
          inl (f, rw (e, none_free, sys_open) (rw e refl)))
    | inr (fd, found) ↦
        (let f : FoundFree (get_pcb k).fda 6 2 (some fd) =
            subst (FoundFree (get_pcb k).fda 6 2) found (find_free-FoundFree (get_pcb k).fda 6 2) in
          inr
            (fd, f.0, f.1, f.2, f.3, rw (e, found, sys_open) (rw (e, open_kind_lem k fd e t) refl)))
  ]
