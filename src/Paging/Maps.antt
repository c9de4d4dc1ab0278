-- ===== src/Paging/Maps.antt =====
-- What the mapping calls of student-distrib/paging.c do to the translation of addresses.
use fuzzy_os.Base.{
  Word, arith, bit_or-add, false, if◌then◌else◌, leb, ltb, none, some, true, ◌%◌, ◌&&◌, ◌+◌, ◌<◌,
  ◌==◌, ◌^◌, ◌||◌, ◌≡◌,
}
use fuzzy_os.Paging.{
  Paging, init_paging, kernel_flags, map_virtual_addr_to_physical,
  map_virtual_addr_to_physical_4kb_page, pd_index, pt_index, remove_page, user_flags,
  user_page_flags, video,
}
use fuzzy_os.Paging.Walk.{translate}

-- Mapping a 4 MB page: every address of that page goes to the physical page, for user programs
-- too, and every other address goes where it went; the TLB holds nothing old.
pub map_virtual_addr_to_physical_lem :
    (table va pa : Word) (p : Paging) (w : Word)
    → pa % 2 ^ 22 ≡ 0
    → let p' = map_virtual_addr_to_physical va pa p in
      (translate table p' w
        ≡ (if pd_index w == pd_index va then some (pa + w % 2 ^ 22, true) else translate table p w))
      × (p'.stale ≡ false)
unfolding map_virtual_addr_to_physical translate
map_virtual_addr_to_physical_lem table va pa p w h = ground (arith, bit_or-add pa user_page_flags)

-- Removing a 4 MB page: its addresses fault, and every other address goes where it went.
pub remove_page_lem :
    (table va : Word) (p : Paging) (w : Word)
    → let p' = remove_page va p in
      (translate table p' w ≡ (if pd_index w == pd_index va then none else translate table p w))
      × (p'.stale ≡ false)
unfolding remove_page translate
remove_page_lem table va p w = ground arith

-- Mapping a 4 KB page for user programs: its addresses go to the physical page.
pub map_virtual_addr_to_physical_4kb_page_lem :
    (table va pa : Word) (p : Paging) (w : Word)
    → table % 2 ^ 12 ≡ 0
    → pa % 2 ^ 12 ≡ 0
    → pd_index w ≡ pd_index va
    → pt_index w ≡ pt_index va
    → translate table (map_virtual_addr_to_physical_4kb_page table va pa p) w
      ≡ some (pa + w % 2 ^ 12, true)
unfolding map_virtual_addr_to_physical_4kb_page translate
map_virtual_addr_to_physical_4kb_page_lem table va pa p w ht hp d t =
    ground (arith, bit_or-add table user_flags, bit_or-add pa user_flags)

-- After init_paging the kernel's 4 MB and the four pages of text memory are mapped to themselves,
-- for the kernel only, and every other address faults.
pub init_paging_lem :
    (table w : Word)
    → table % 2 ^ 12 ≡ 0
    → w < 2 ^ 32
    → translate table (init_paging table) w ≡ (
        if leb 0x400000 w && ltb w 0x800000 || leb 0xB8000 w && ltb w 0xBC000
        then some (w, false)
        else none)
unfolding init_paging translate
init_paging_lem table w h l = ground (arith, bit_or-add table kernel_flags)

-- The one page table serves the kernel's lowest 4 MB too: when the page behind the user program
-- has been mapped to the screen, address 0 no longer faults in the kernel but is the screen.
pub vidmap_aliases_zero :
    (table : Word) (p : Paging) (w : Word)
    → table % 2 ^ 12 ≡ 0
    → w < 2 ^ 12
    → p.page_directory 0 ≡ table + kernel_flags
    → translate table (map_virtual_addr_to_physical_4kb_page table 0x8400000 video p) w
      ≡ some (video + w, false)
unfolding map_virtual_addr_to_physical_4kb_page translate
vidmap_aliases_zero table p w h l e = ground arith
