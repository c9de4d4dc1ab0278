-- ===== src/Paging.antt =====
-- student-distrib/paging.c, the page directory and the one page table that the kernel keeps. The
-- address of `video_page_table` is the parameter `table`; an address is a word.
pub mod Walk
pub mod Maps
use fuzzy_os.Base.{Bool, Word, bit_or, false, true, update, ℕ, ◌%◌, ◌/◌, ◌^◌}

-- `page_directory` and `video_page_table`; `stale` says that they have changed since the last load
-- of CR3, which empties the TLB.
pub record Paging : Type 0 where
  pub page_directory : ℕ → Word
  pub video_page_table : ℕ → Word
  pub stale : Bool

-- `P | RW`, `P | RW | US`, `PS | RW | P | PCD | US` and `PS | RW | P | G | PCD`
abbrev pub kernel_flags : ℕ
kernel_flags = 0x003

abbrev pub user_flags : ℕ
user_flags = 0x007

abbrev pub user_page_flags : ℕ
user_page_flags = 0x097

abbrev pub kernel_page_flags : ℕ
kernel_page_flags = 0x193

abbrev pub video : ℕ
video = 0xB8000

-- `(virtual_addr >> 22) & 0x3FF` and `(virtual_addr >> 12) & 0x3FF`
abbrev pub pd_index : Word → ℕ
pd_index virtual_addr = virtual_addr / 2 ^ 22 % 1024

abbrev pub pt_index : Word → ℕ
pt_index virtual_addr = virtual_addr / 2 ^ 12 % 1024

-- flush_tlb of student-distrib/system_call.c
unfoldable pub flush_tlb : Paging → Paging
flush_tlb p = record p { stale = false }

abbrev pub set_directory : ℕ → Word → Paging → Paging
set_directory i v p = record p { page_directory = update p.page_directory i v; stale = true }

abbrev pub set_table : ℕ → Word → Paging → Paging
set_table i v p = record p { video_page_table = update p.video_page_table i v; stale = true }

-- remove_page
unfoldable pub remove_page : Word → Paging → Paging
unfolding flush_tlb
remove_page virtual_addr p = flush_tlb (set_directory (pd_index virtual_addr) 0 p)

-- map_virtual_addr_to_physical: a page of 4 MB
unfoldable pub map_virtual_addr_to_physical : Word → Word → Paging → Paging
unfolding flush_tlb
map_virtual_addr_to_physical virtual_addr physical_addr p =
    flush_tlb (set_directory (pd_index virtual_addr) (bit_or physical_addr user_page_flags) p)

module _ (table : Word) where
  -- remove_4kb_page
  unfoldable pub remove_4kb_page : Word → Paging → Paging
  unfolding flush_tlb
  remove_4kb_page virtual_addr p = flush_tlb (
      set_table (pt_index virtual_addr) 0
        (set_directory (pd_index virtual_addr) (bit_or table user_flags) p))

  -- map_virtual_addr_to_physical_4kb_page
  unfoldable pub map_virtual_addr_to_physical_4kb_page : Word → Word → Paging → Paging
  unfolding flush_tlb
  map_virtual_addr_to_physical_4kb_page virtual_addr physical_addr p = flush_tlb (
      set_table (pt_index virtual_addr) (bit_or physical_addr user_flags)
        (set_directory (pd_index virtual_addr) (bit_or table user_flags) p))

  -- map_terminal_vidmem
  unfoldable pub map_terminal_vidmem : Word → Word → Paging → Paging
  unfolding flush_tlb
  map_terminal_vidmem virtual_addr physical_addr p = flush_tlb (
      set_table (pt_index virtual_addr) (bit_or physical_addr kernel_flags)
        (set_directory (pd_index virtual_addr) (bit_or table kernel_flags) p))

  -- The two tables as the loop of init_paging and the writes around it leave them.
  unfoldable pub boot_tables : Paging
  boot_tables = record {
    page_directory =
        update (update (λ i. 0) 0 (bit_or table kernel_flags)) 1
          (bit_or 0x400000 kernel_page_flags);
    video_page_table = update (λ i. 0) (video / 2 ^ 12) (bit_or video kernel_flags);
    stale = true;
  }

  -- init_paging; set_paging_registers loads CR3 and turns paging on.
  unfoldable pub init_paging : Paging
  unfolding boot_tables map_terminal_vidmem flush_tlb
  init_paging = map_terminal_vidmem 0xBB000 0xBB000 (
      map_terminal_vidmem 0xBA000 0xBA000
        (map_terminal_vidmem 0xB9000 0xB9000 (flush_tlb boot_tables)))
