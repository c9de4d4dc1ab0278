-- ===== src/Boot.antt =====
-- entry of student-distrib/kernel.c, which the assembly of boot.S calls with interrupts off and the
-- interrupt table filled. `ram` is physical memory as the boot loader leaves it.
pub mod Texts
pub mod State
pub mod Devices
pub mod Printing
pub mod Messages
pub mod Booting
pub mod Failing
use mathlib.Core.Option
use fuzzy_os.Base.{
  Bool, List, Memory, Option, Ports, Word, [], add32, bit, false, get_or, if◌then◌else◌, load32,
  ltb, map, none, not, sign_extend8, some, suc, true, zero, ℕ, ◌%◌, ◌&&◌, ◌+◌, ◌==◌, ◌>>=◌, ◌^◌,
  ◌∷◌,
}
use fuzzy_os.Boot.State.{Linked, Machine, set_params}
use fuzzy_os.Boot.Texts.{
  boot_device_format, both_bits_format, byte_format, cmdline_format, elf_format, first_bytes_format,
  flags_format, magic_format, mem_format, mmap_entry_format, mmap_format, mod_end_format,
  mod_start_format, newline_format,
}
use fuzzy_os.Console.{Console, clear, reset_cursor, update_cursor}
use fuzzy_os.Console.Printf.{printf}
use fuzzy_os.Console.Rendering.{Piece, format_of}
use fuzzy_os.Kernel.{Kernel}
use fuzzy_os.Keyboard.{init_keyboard, on_console}
use fuzzy_os.Paging.{Paging, init_paging}
use fuzzy_os.Paging.Walk.{translate}
use fuzzy_os.Pic.{i8259_init, init_pit}
use fuzzy_os.Process.{kernel_ds}
use fuzzy_os.Rtc.{Rtc, init_rtc}

-- `MULTIBOOT_BOOTLOADER_MAGIC`, `KERNEL_TSS` and `KERNEL_LDT`
abbrev pub multiboot_bootloader_magic : Word
multiboot_bootloader_magic = 0x2BADB002

abbrev pub kernel_tss : ℕ
kernel_tss = 0x30

abbrev pub kernel_ldt : ℕ
kernel_ldt = 0x38

-- `CHECK_FLAG(flags, bit)`
abbrev pub check_flag : Word → ℕ → Bool
check_flag flags b = bit flags b == 1

-- How entry ends: it returns to boot.S, or it waits for interrupts; or init_filesys reads an address
-- that is not mapped, which the exception of a page fault ends.
pub data Ending : Type 0 where
  returns : Machine → Ending
  waits : Machine → Ending
  faults : Word → Machine → Ending

abbrev pub on_kernel : (Kernel → Kernel) → Machine → Machine
on_kernel f m = record m { kernel = f m.kernel }

-- `ldt_desc_ptr` and LDTR
unfoldable pub load_ldt : Word → Word → Machine → Machine
load_ldt ldt ldt_size m = record m {
  ldt_desc = set_params ldt ldt_size (record {
    seg_lim_15_00 = 0;
    base_15_00 = 0;
    base_23_16 = 0;
    seg_type = 2;
    sys = 0;
    dpl = 0;
    present = 1;
    seg_lim_19_16 = 0;
    avail = 0;
    reserved = 0;
    opsize = 1;
    granularity = 0;
    base_31_24 = 0;
  });
  ldtr = kernel_ldt;
}

-- `tss_desc_ptr`, the kernel stack in the TSS and the task register
unfoldable pub load_tss : Word → Word → Machine → Machine
load_tss tss tss_size m = record m {
  tss_desc = set_params tss tss_size (record {
    seg_lim_15_00 = 104;
    base_15_00 = 0;
    base_23_16 = 0;
    seg_type = 9;
    sys = 0;
    dpl = 0;
    present = 1;
    seg_lim_19_16 = 0;
    avail = 0;
    reserved = 0;
    opsize = 0;
    granularity = 0;
    base_31_24 = 0;
  });
  tss_ldt = kernel_ldt;
  kernel = record (m.kernel) { ss0 = kernel_ds; esp0 = 0x800000 };
  task_register = kernel_tss;
}

-- The controllers and devices, over the one list of what is written to the ports.
unfoldable pub init_devices : (Ports → ℕ → ℕ) → Kernel → Kernel
init_devices read k =
    let con : Console =
      init_keyboard read (record (k.keys.con) { ports = i8259_init k.keys.con.ports }) in
    let rtc : Rtc = init_rtc read (record (k.rtc) { ports = con.ports }) in
    let ports : Ports = init_pit read rtc.ports in
    record k {
      keys = record (k.keys) { con = record con { ports = ports } };
      rtc = record rtc { ports = ports };
    }

abbrev pub has_page : Option (Word × Bool) → Bool
has_page none = false
has_page (some page) = true

-- The four bytes at an address have pages.
abbrev pub is_mapped : Word → Paging → Word → Bool
is_mapped table p a = has_page (translate table p a) && has_page (translate table p (add32 a 3))

-- `clear` to `sti`, with the image of the file system
abbrev pub start_up : Memory → Machine → Machine
start_up image m = record m {
  kernel = record (m.kernel) {
    image = image;
    keys = record (m.kernel.keys) { con = update_cursor (reset_cursor (clear m.kernel.keys.con)) };
  };
  interrupts_on = true;
}

-- `init_paging` to `sti`, where the module with the file system starts at `mod_start`. init_filesys
-- reads the number of inodes, four bytes behind the start, through the new page tables.
unfoldable pub set_up : Word → (Ports → ℕ → ℕ) → Memory → Word → Machine → Ending
unfolding init_devices
set_up table read ram mod_start m =
    let k : Kernel = init_devices read (record (m.kernel) { paging = init_paging table }) in
    let m1 : Machine = record m { kernel = k } in
    if mod_start == 0
    then waits (start_up k.image m1)
    else if is_mapped table k.paging (add32 mod_start 4)
    then waits (start_up (λ x. ram (mod_start + x)) m1)
    else faults (add32 mod_start 4) m1

-- `text_at` is the text at an address, and `conv` what stands in the conversion buffers of printf.
module _ (ram : Memory) (text_at : Word → List ℕ) (conv : ℕ → Memory) where
  -- printf with a list of arguments
  abbrev pub print : List Piece → List Word → Machine → Option Machine
  print format args m =
      Option.map (λ r. on_kernel (λ k. record k { keys = record (k.keys) { con = r.1 } }) m)
        (printf text_at (λ i. get_or args i 0) conv (format_of format) m.kernel.keys.con)

  -- The loop over the first 16 bytes, from `i` on with `k` left; a byte is a `char`.
  unfoldable pub print_bytes : ℕ → ℕ → Word → Machine → Option Machine
  print_bytes zero i mod_start m = some m
  print_bytes (suc k) i mod_start m = do
    m1 ← print byte_format (sign_extend8 (ram ((mod_start + i) % 2 ^ 32)) ∷ []) m
    print_bytes k (i + 1) mod_start m1

  -- The loop over the modules, from number `i`, which stands at the address `at`, with `k` left.
  unfoldable pub print_modules : ℕ → ℕ → Word → Machine → Option Machine
  unfolding print_bytes
  print_modules zero i at m = some m
  print_modules (suc k) i at m = do
    m1 ← print mod_start_format (i ∷ load32 ram at ∷ []) m
    m2 ← print mod_end_format (i ∷ load32 ram (at + 4) ∷ []) m1
    m3 ← print first_bytes_format [] m2
    m4 ← print_bytes 16 0 (load32 ram at) m3
    m5 ← print newline_format [] m4
    print_modules k (i + 1) (at + 16) m5

  -- The loop over the memory map, from the entry at `mmap` to the address `end`, with fuel.
  unfoldable pub print_mmap : ℕ → Word → Word → Machine → Option Machine
  print_mmap zero mmap end m = if ltb mmap end then none else some m
  print_mmap (suc f) mmap end m =
      let rest : Option Machine = (do
        m1 ←
            print mmap_entry_format
              (load32 ram mmap
                ∷ load32 ram (mmap + 8)
                ∷ load32 ram (mmap + 4)
                ∷ load32 ram (mmap + 20)
                ∷ load32 ram (mmap + 16)
                ∷ load32 ram (mmap + 12)
                ∷ [])
              m
        print_mmap f (add32 (add32 mmap (load32 ram mmap)) 4) end m1) in
      if ltb mmap end then rest else some m

  abbrev pub print_if : Bool → List Piece → List Word → Machine → Option Machine
  print_if true format args m = print format args m
  print_if false format args m = some m

  -- The flags, what they say is valid, and the modules.
  unfoldable pub print_info : Word → Machine → Option Machine
  unfolding print_modules
  print_info mbi m = do
    m1 ← print flags_format (load32 ram mbi ∷ []) m
    m2 ←
        print_if (check_flag (load32 ram mbi) 0) mem_format
          (load32 ram (mbi + 4) ∷ load32 ram (mbi + 8) ∷ []) m1
    m3 ← print_if (check_flag (load32 ram mbi) 1) boot_device_format (load32 ram (mbi + 12) ∷ []) m2
    m4 ← print_if (check_flag (load32 ram mbi) 2) cmdline_format (load32 ram (mbi + 16) ∷ []) m3
    if check_flag (load32 ram mbi) 3
        then print_modules (load32 ram (mbi + 20)) 0 (load32 ram (mbi + 24)) m4
        else some m4

  -- The section header table and the memory map.
  unfoldable pub print_tables : ℕ → Word → Machine → Option Machine
  unfolding print_mmap
  print_tables fuel mbi m = do
    m1 ←
        print_if (check_flag (load32 ram mbi) 5) elf_format
          (load32 ram (mbi + 28)
            ∷ load32 ram (mbi + 32)
            ∷ load32 ram (mbi + 36)
            ∷ load32 ram (mbi + 40)
            ∷ [])
          m
    m2 ←
        print_if (check_flag (load32 ram mbi) 6) mmap_format
          (load32 ram (mbi + 48) ∷ load32 ram (mbi + 44) ∷ []) m1
    if check_flag (load32 ram mbi) 6
        then print_mmap fuel (load32 ram (mbi + 48))
            (add32 (load32 ram (mbi + 48)) (load32 ram (mbi + 44))) m2
        else some m2

  -- entry, with the addresses and limits that the linker knows
  unfoldable pub kernel_entry : Linked → (Ports → ℕ → ℕ) → ℕ → Word → Word → Machine → Option Ending
  unfolding print_info print_tables load_ldt load_tss set_up
  kernel_entry linked read fuel magic addr m =
      let m0 : Machine = on_kernel (λ k. record k { keys = on_console clear k.keys }) m in
      if not (magic == multiboot_bootloader_magic)
      then (do m1 ← print magic_format (magic ∷ []) m0; some (returns m1))
      else (do
        m1 ← print_info addr m0
        if check_flag (load32 ram addr) 4 && check_flag (load32 ram addr) 5
            then (do m2 ← print both_bits_format [] m1; some (returns m2))
            else (do
              m2 ← print_tables fuel addr m1
              some (
                  set_up linked.table read ram (load32 ram (load32 ram (addr + 24))) (
                    load_tss linked.tss linked.tss_size (load_ldt linked.ldt linked.ldt_size m2)))))
