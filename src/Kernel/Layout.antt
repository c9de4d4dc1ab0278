-- ===== src/Kernel/Layout.antt =====
-- The memory layout of processes (student-distrib/system_call.c, student-distrib/system_call.h):
-- blocks, kernel stacks and frames of different processes lie apart.
use fuzzy_os.Base.{
  Word, arith, refl, some, true, ℕ, ◌%◌, ◌*◌, ◌+◌, ◌<◌, ◌==◌, ◌^◌, ◌∙◌, ◌≡◌, ◌≢◌, ◌≤◌, ◌⊎◌,
}
use fuzzy_os.Kernel.{frame_address, pcb_address, stack_top}
use fuzzy_os.Paging.{Paging, map_virtual_addr_to_physical, pd_index}
use fuzzy_os.Paging.Maps.{map_virtual_addr_to_physical_lem}
use fuzzy_os.Paging.Walk.{translate}

-- the place of process `n` of terminal `t` among the eighteen
abbrev pub slot : ℕ → ℕ → ℕ
slot t n = n * 3 + t

-- For the three terminals and up to six processes no address computation wraps.
pub addresses :
    (t n : ℕ)
    → t < 3
    → n < 6
    → (pcb_address t n + 0x2000 * (slot t n + 1) ≡ 0x800000)
      × (stack_top t n + 4 ≡ pcb_address t n)
      × (frame_address t n ≡ 0x800000 + 0x400000 * slot t n)
unfolding pcb_address stack_top frame_address
addresses t n ht hn = omega arith

-- Two processes have blocks at least 8 KB apart, and the stack of one, which grows down from 4 bytes
-- below its block, reaches no block of 152 bytes before it has used 8036 bytes; frames are at least
-- 4 MB apart, aligned, and above all the blocks.
pub processes_apart :
    (t n u m : ℕ)
    → t < 3
    → n < 6
    → u < 3
    → m < 6
    → (t ≢ u) ⊎ (n ≢ m)
    → ((pcb_address t n + 0x2000 ≤ pcb_address u m) ⊎ (pcb_address u m + 0x2000 ≤ pcb_address t n))
      × ((pcb_address u m + 152 + 8036 ≤ stack_top t n) ⊎ (stack_top t n + 4 ≤ pcb_address u m))
      × ((frame_address t n + 0x400000 ≤ frame_address u m)
          ⊎ (frame_address u m + 0x400000 ≤ frame_address t n))
      × (frame_address t n % 0x400000 ≡ 0)
      × (pcb_address u m + 0x2000 ≤ frame_address t n)
processes_apart t n u m ht hn hu hm d = omega (arith, addresses t n ht hn, addresses u m hu hm)

-- The page at 128 MB, mapped to the frame of a process.
pub user_page :
    (table t n : Word) (p : Paging) (x : ℕ)
    → t < 3
    → n < 6
    → x < 2 ^ 22
    → translate table (map_virtual_addr_to_physical 0x8000000 (frame_address t n) p) (0x8000000 + x)
      ≡ some (frame_address t n + x, true)
user_page table t n p x ht hn l =
    let a : frame_address t n ≡ 0x800000 + 0x400000 * slot t n = (addresses t n ht hn).2 in
    let m =
      (map_virtual_addr_to_physical_lem table 0x8000000 (frame_address t n) p (0x8000000 + x)
        (omega arith)).0 in
    let i : (pd_index (0x8000000 + x) == pd_index 0x8000000) ≡ true = ground arith in
    let o : (0x8000000 + x) % 2 ^ 22 ≡ x = omega arith in m ∙ rw (i, o) refl
