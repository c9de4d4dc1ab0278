-- ===== src/Scheduler/Pages.antt =====
-- What a switch of student-distrib/scheduler.c maps for the terminal that is next.
use fuzzy_os.Base.{
  Word, ap, arith, bit_or-add, if◌then◌else◌, refl, some, suc, true, zero, ℕ, ◌%◌, ◌+◌, ◌<◌, ◌==◌,
  ◌^◌, ◌∙◌, ◌≡◌,
}
use fuzzy_os.Console.{terminal_vidmem}
use fuzzy_os.Display.{set_execute_term}
use fuzzy_os.Kernel.{Kernel, current, frame_address, stack_top}
use fuzzy_os.Kernel.Layout.{addresses}
use fuzzy_os.Paging.{
  Paging, map_virtual_addr_to_physical, map_virtual_addr_to_physical_4kb_page, user_page_flags,
}
use fuzzy_os.Paging.Maps.{map_virtual_addr_to_physical_4kb_page_lem}
use fuzzy_os.Paging.Walk.{translate}
use fuzzy_os.Scheduler.{switch_terminal, video_phys_mem}

-- The page at 128 MB is still the frame when the page behind it has been mapped.
user_page_behind :
    (table fa v : Word) (p : Paging) (x : ℕ)
    → fa % 2 ^ 22 ≡ 0
    → x < 2 ^ 22
    → translate table
        (map_virtual_addr_to_physical_4kb_page table 0x8400000 v
          (map_virtual_addr_to_physical 0x8000000 fa p))
        (0x8000000 + x)
      ≡ some (fa + x, true)
unfolding translate map_virtual_addr_to_physical_4kb_page map_virtual_addr_to_physical
user_page_behind table fa v p x h l = ground (arith, bit_or-add fa user_page_flags)

-- After a switch, the program of the next terminal sees its own frame at 128 MB, and in the page
-- behind its 4 MB the screen if its terminal is on display, and its terminal's saved page if it is
-- not; it enters the kernel on its own stack; and the terminal on display is as before.
pub switch_terminal_lem :
    (table : Word) (k : Kernel) (x y : ℕ)
    → table % 2 ^ 12 ≡ 0
    → k.process_num ((current k + 1) % 3) < 6
    → x < 2 ^ 22
    → y < 2 ^ 12
    → let t : ℕ = (current k + 1) % 3 in
      let k' : Kernel = switch_terminal table k in
      (current k' ≡ t)
      × (translate table k'.paging (0x8000000 + x)
          ≡ some (frame_address t (k.process_num t) + x, true))
      × (translate table k'.paging (0x8400000 + y)
          ≡ some ((if k.keys.con.display == t then 0xB8000 else terminal_vidmem t) + y, true))
      × (k'.esp0 ≡ stack_top t (k.process_num t))
      × (k'.keys.con.display ≡ k.keys.con.display)
unfolding switch_terminal set_execute_term
switch_terminal_lem table k x y h n l m = (
  refl,
  user_page_behind table (frame_address t (k.process_num t)) (video_phys_mem k.keys.con.display t)
      k.paging x (omega (arith, addresses t (k.process_num t) (omega arith) n)) l,
  map_virtual_addr_to_physical_4kb_page_lem table 0x8400000 (video_phys_mem k.keys.con.display t) _
        (0x8400000 + y) h (page_aligned k.keys.con.display t) (ground arith) (ground arith)
      ∙ ap (λ o. some (video_phys_mem k.keys.con.display t + o, true)) (omega arith),
  refl,
  refl,
)
  where
    t : ℕ
    t = (current k + 1) % 3

    page_aligned : (d e : ℕ) → video_phys_mem d e % 2 ^ 12 ≡ 0
    page_aligned d zero = ground arith
    page_aligned d (suc zero) = ground arith
    page_aligned d (suc (suc e)) = ground arith
