-- ===== src/Syscalls/Access.antt =====
-- The guards of the calls on descriptors (student-distrib/system_call.c), and a close after an open.
use fuzzy_os.Base.{
  Bool, Memory, Option, Ports, Word, arith, false, if◌then◌else◌, minus_one, none, refl, slt, some,
  true, ℕ, ◌<◌, ◌==◌, ◌^◌, ◌||◌, ◌≡◌, ◌≢◌, ◌≤◌, ◌⊎◌,
}
use fuzzy_os.FileSystem.{Dentry}
use fuzzy_os.Kernel.{
  Kernel, closed_entry, current_address, entry, fda_max_index, fda_min_index, set_entry,
}
use fuzzy_os.Syscalls.{Wait, close_kind, sys_close, sys_read, sys_write}
use fuzzy_os.Syscalls.Descriptors.{opened_as}

-- Two guards in a row that return the same.
guards {ℓ} :
    {A : Type ℓ}
    → (t u : Bool) (x y : A) → (t || u) ≡ true
    → (if t then x else (if u then x else y)) ≡ x
guards true u x y h = refl
guards false true x y h = refl
guards false false x y h = ground arith

-- A descriptor above 7, or one that is not in use, is refused by read, write and close alike: they
-- return -1, and neither the buffer nor the kernel changes. So does a read of descriptor 1 and a
-- write of descriptor 0, whatever they hold.
pub descriptors_refused :
    (stack : Memory) (junk : Dentry) (read : Ports → ℕ → ℕ) (w : Wait) (fd : Word)
    (buf : Option Memory) (nbytes : Word) (k : Kernel)
    → fd < 2 ^ 32
    → (7 < fd) ⊎ ((entry k fd).flags ≡ 0)
    → (sys_read stack junk w fd buf nbytes k ≡ some (minus_one, buf, k))
      × (sys_write read fd buf nbytes k ≡ some (minus_one, k))
      × (sys_close fd k ≡ (minus_one, k))
      × (sys_read stack junk w 1 buf nbytes k ≡ some (minus_one, buf, k))
      × (sys_write read 0 buf nbytes k ≡ some (minus_one, k))
unfolding sys_read sys_write sys_close
descriptors_refused stack junk read w fd none nbytes k h d = (
  refl,
  refl,
  guards (slt fd fda_min_index || slt fda_max_index fd) ((entry k fd).flags == 0) _ _
      (ground arith),
  refl,
  refl,
)
descriptors_refused stack junk read w fd (some buf) nbytes k h d = (
  guards (slt fd 0 || slt fda_max_index fd || fd == 1) ((entry k fd).flags == 0) _ _ (ground arith),
  guards (slt fd 1 || slt fda_max_index fd) ((entry k fd).flags == 0) _ _ (ground arith),
  guards (slt fd fda_min_index || slt fda_max_index fd) ((entry k fd).flags == 0) _ _
      (ground arith),
  refl,
  refl,
)

-- Closing a descriptor that has just been given to a file or a directory succeeds, and leaves every
-- descriptor as it was before the open, but that one, which is free; nothing but the
-- process's block has changed.
pub sys_close_opened :
    (file : Dentry) (fd : Word) (k : Kernel)
    → 2 ≤ fd
    → fd < 8
    → let (status, k') = sys_close fd (set_entry fd (opened_as file) k) in
      (status ≡ 0)
      × ((j : ℕ) → entry k' j ≡ (if j == fd then closed_entry else entry k j))
      × ((a : Word) → a ≢ current_address k → k'.pcbs a ≡ k.pcbs a)
      × (k'.keys ≡ k.keys)
      × (k'.paging ≡ k.paging)
      × (k'.frames ≡ k.frames)
unfolding sys_close close_kind
sys_close_opened file fd k lo hi =
    (ground arith, λ j. ground arith, λ a n. ground arith, ground arith, ground arith, ground arith)
