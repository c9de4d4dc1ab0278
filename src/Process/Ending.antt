-- ===== src/Process/Ending.antt =====
-- halt of student-distrib/system_call.c, for a process that another one has started.
use mathlib.Core.Path.{ap₂, subst}
use fuzzy_os.Base.{
  Word, arith, false, if◌then◌else◌, refl, some, sub32, sym, true, ℕ, ◌+◌, ◌-◌, ◌<◌, ◌==◌, ◌^◌, ◌∙◌,
  ◌≡◌, ◌≢◌, ◌≤◌,
}
use fuzzy_os.Kernel.{
  Kernel, current, current_address, current_num, entry, fda_min_index, frame_address, get_pcb,
  stack_top,
}
use fuzzy_os.Kernel.Layout.{user_page}
use fuzzy_os.Paging.Walk.{translate}
use fuzzy_os.Process.{
  Frame, count_down, current_frame, excep_num, final, halt, halt_child, reset_pcb, restore_parent,
  resumed, tear_down,
}
use fuzzy_os.Process.Keeping.{Kept, Kept-address, tear_down-Kept, tear_down_frees}

-- The loop of halt over the block of the running process, once the counts are those of its parent.
abbrev pub torn_down : Kernel → Kernel
torn_down k =
    tear_down (current_address k) 6 fda_min_index (count_down (record k { exception_flag = 0 }))

pub torn_down-Kept :
    (k : Kernel) → Kept (count_down (record k { exception_flag = 0 })) (torn_down k)
torn_down-Kept k =
    tear_down-Kept (current_address k) 6 2 (count_down (record k { exception_flag = 0 }))

count_down-current_num : (k : Kernel) → current_num (count_down k) ≡ sub32 (current_num k) 1
unfolding count_down
count_down-current_num k = ground arith

torn_down-current_num :
    (k : Kernel)
    → 0 < current_num k
    → current_num k < 6
    → current_num (torn_down k) ≡ current_num k - 1
unfolding count_down
torn_down-current_num k lo hi =
    let h = torn_down-Kept k in
    let e : sub32 (current_num k) 1 ≡ current_num k - 1 = omega arith in
    rw (h.term, h.process_num) (count_down-current_num k ∙ e)

torn_down-frame :
    (k : Kernel)
    → 0 < current_num k
    → current_num k < 6
    → current_frame (torn_down k) ≡ frame_address (current k) (current_num k - 1)
unfolding count_down
torn_down-frame k lo hi = ap₂ frame_address (torn_down-Kept k).term (torn_down-current_num k lo hi)

pub halt-resumed :
    (f : Frame) (table status : Word) (k : Kernel)
    → current_num k ≢ 0
    → halt f table status k
      ≡ resumed
          (if k.exception_flag == 0 then status else excep_num)
          (get_pcb k).parent_esp
          (get_pcb k).parent_ebp
          (reset_pcb (current_address k) (restore_parent table (torn_down k)))
unfolding halt halt_child count_down
halt-resumed f table status k h =
    let e : (current_num k == 0) ≡ false = ground arith in
    rw (e, (torn_down-Kept k).parent_esp, (torn_down-Kept k).parent_ebp) refl

-- halt, in a process that is not the first of its terminal: the parent goes on where it called
-- execute, with the status, or 256 if the exception flag is set; both counts go down by one, and the
-- kernel stack and the user page, up to 128 MB + 4 MB, are those of the parent.
pub halt_child_lem :
    (f : Frame) (table status : Word) (k : Kernel)
    → current k < 3
    → 0 < current_num k
    → current_num k < 6
    → let n : Word = current_num k - 1 in
      (k' : Kernel) × (halt f table status k
        ≡ resumed
            (if k.exception_flag == 0 then status else 256)
            (get_pcb k).parent_esp
            (get_pcb k).parent_ebp
            k')
      × (k'.pid ≡ sub32 k.pid 1)
      × (current k' ≡ current k)
      × (current_num k' ≡ n)
      × (k'.esp0 ≡ stack_top (current k) n)
      × ((x : ℕ)
          → x < 2 ^ 22
          → translate table k'.paging (0x8000000 + x)
            ≡ some (frame_address (current k) n + x, true))
unfolding restore_parent count_down
halt_child_lem f table status k t lo hi =
    let h : Kept (count_down (record k { exception_flag = 0 })) (torn_down k) = torn_down-Kept k in
    (
      reset_pcb (current_address k) (restore_parent table (torn_down k)),
      halt-resumed f table status k (ground arith),
      h.pid,
      h.term,
      torn_down-current_num k lo hi,
      ap₂ stack_top h.term (torn_down-current_num k lo hi),
      λ x l.
          rw (torn_down-frame k lo hi)
            (user_page table (current k) (current_num k - 1) _ x t (omega arith) l),
    )

reset_pcb-fda :
    (a : Word) (k : Kernel) (b : Word) (j : ℕ) → ((reset_pcb a k).pcbs b).fda j ≡ (k.pcbs b).fda j
reset_pcb-fda a k b j = ground arith

-- When the parent goes on, its own descriptors 2 to 7 are closed: halt has lowered the count before
-- it calls close, which looks the process up by that count.
pub halt_closes_parent :
    (f : Frame) (table status : Word) (k : Kernel) (j : ℕ)
    → 0 < current_num k
    → 2 ≤ j
    → j < 8
    → (entry (final (halt f table status k)) j).flags ≡ 0
unfolding restore_parent
halt_closes_parent f table status k j n lo hi =
    rw
      (
        halt-resumed f table status k (omega arith),
        reset_pcb-fda (current_address k) (restore_parent table (torn_down k)),
      )
      (subst (λ a. (((torn_down k).pcbs a).fda j).flags ≡ 0)
        (sym (Kept-address _ _ (torn_down-Kept k)))
        (tear_down_frees (current_address k) 6 2 j (count_down (record k { exception_flag = 0 }))
          (omega arith) (omega arith) lo (omega arith)))
