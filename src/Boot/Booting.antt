-- ===== src/Boot/Booting.antt =====
-- entry of student-distrib/kernel.c as a whole: what the kernel is like when it waits for the first
-- interrupt.
use mathlib.Core.Path.{ap₂}
use fuzzy_os.Base.{
  List, Memory, Ports, Word, add32, ap, arith, false, if◌then◌else◌, inl, inr, leb, load32, ltb,
  map, out_byte, refl, some, true, ℕ, ◌%◌, ◌&&◌, ◌+◌, ◌<◌, ◌==◌, ◌^◌, ◌||◌, ◌∙◌, ◌≡◌, ◌≢◌, ◌≤◌, ◌⊎◌,
}
use fuzzy_os.Boot.{
  check_flag, has_page, init_devices, is_mapped, kernel_entry, load_ldt, load_tss, on_kernel,
  set_up, start_up, waits,
}
use fuzzy_os.Boot.Devices.{Masked, init_devices-Masked, out_byte-Masked}
use fuzzy_os.Boot.Messages.{HasMap, print_info-Yields, print_tables-Yields}
use fuzzy_os.Boot.Printing.{Printed, Printed-trans}
use fuzzy_os.Boot.State.{Linked, Machine}
use fuzzy_os.Console.{Console, clear, reset_cursor, update_cursor}
use fuzzy_os.Console.Input.{clear-OnlyPrints}
use fuzzy_os.Kernel.{Kernel}
use fuzzy_os.Keyboard.{init_keyboard, on_console, shown}
use fuzzy_os.Paging.{init_paging}
use fuzzy_os.Paging.Maps.{init_paging_lem}
use fuzzy_os.Paging.Walk.{translate}
use fuzzy_os.Pic.Masks.{IsMaskRegister, mask_bit}

-- The kernel is set up: the four interrupts in use are let through and no other, the page tables are
-- those of init_paging, the TSS has the first kernel stack, the image is the module's memory, the
-- screen's cursor is at its begin, and no process has been counted.
pub record IsUp (linked : Linked) (read : Ports → ℕ → ℕ) (ram : Memory) (mbi : Word)
    (m m' : Machine) : Type 0 where
  pub interrupts : m'.interrupts_on ≡ true
  pub masks :
      (j : ℕ)
      → j < 16
      → mask_bit read m'.kernel.keys.con.ports j
        ≡ (if j == 0 || j == 1 || j == 2 || j == 8 then 0 else 1)
  pub paging : m'.kernel.paging ≡ init_paging linked.table
  pub esp0 : m'.kernel.esp0 ≡ 0x800000
  pub ss0 : m'.kernel.ss0 ≡ 0x18
  pub task : m'.task_register ≡ 0x30
  pub image :
      load32 ram (load32 ram (mbi + 24)) ≢ 0
      → m'.kernel.image ≡ (λ x. ram (load32 ram (load32 ram (mbi + 24)) + x))
  pub pid : m'.kernel.pid ≡ m.kernel.pid
  pub process_num : m'.kernel.process_num ≡ m.kernel.process_num
  pub display : m'.kernel.keys.con.display ≡ m.kernel.keys.con.display
  pub column : (shown m'.kernel.keys).screen_x ≡ 0
  pub row : (shown m'.kernel.keys).screen_y ≡ 0

-- The messages of the header and the screen that has been cleared.
abbrev pub cleared : Machine → Machine
cleared m = on_kernel (λ k. record k { keys = on_console clear k.keys }) m

pub cleared-Printed : (m : Machine) → Printed m (cleared m)
cleared-Printed m = record {
  pid = refl;
  process_num = refl;
  flag = refl;
  interrupts = refl;
  con = clear-OnlyPrints m.kernel.keys.con;
}

module _ (ram : Memory) (text_at : Word → List ℕ) (conv : ℕ → Memory) where
  -- The four writes of update_cursor go to the ports of the display.
  update_cursor-Masked :
      (read : Ports → ℕ → ℕ) (mask : IsMaskRegister read) (c : Console) (bits : ℕ → ℕ)
      → Masked read mask c.ports bits
      → Masked read mask (update_cursor (reset_cursor (clear c))).ports bits
  unfolding update_cursor reset_cursor clear
  update_cursor-Masked read mask c bits h = to_display _ 0x3D5 _ (omega arith) (
      to_display 0x0E 0x3D4 _ (omega arith)
        (to_display _ 0x3D5 _ (omega arith) (to_display 0x0F 0x3D4 c.ports (omega arith) h)))
    where
      to_display :
          (v q : ℕ) (l : Ports)
          → 0xA1 < q
          → Masked read mask l bits
          → Masked read mask (out_byte v q l) bits
      to_display v q l lo m =
          out_byte-Masked read mask v q l bits (omega arith) (omega arith) (omega arith)
            (omega arith) m

  cursor_home :
      (c : Console)
      → let d : Console = update_cursor (reset_cursor (clear c)) in
        (d.display ≡ c.display)
        × ((d.terminals d.display).screen_x ≡ 0)
        × ((d.terminals d.display).screen_y ≡ 0)
  unfolding update_cursor reset_cursor clear
  cursor_home c = (refl, ground arith, ground arith)

  chosen : (a : Word) (x y : Memory) → a ≢ 0 → (if a == 0 then x else y) ≡ y
  chosen a x y h = let t : a == 0 ≡ false = ground arith in rw t refl

  init_devices-display :
      (read : Ports → ℕ → ℕ) (k : Kernel)
      → (init_devices read k).keys.con.display ≡ k.keys.con.display
  unfolding init_devices init_keyboard
  init_devices-display read k = refl

  -- The module starts in the kernel's 4 MB, where init_paging maps it, or there is none.
  abbrev pub IsMapped : Word → Type 0
  IsMapped mod_start = (mod_start ≡ 0) ⊎ ((0x400000 ≤ mod_start) × (mod_start + 8 ≤ 0x800000))

  module_mapped :
      (table mod_start : Word)
      → table % 2 ^ 12 ≡ 0
      → 0x400000 ≤ mod_start
      → mod_start + 8 ≤ 0x800000
      → is_mapped table (init_paging table) (add32 mod_start 4) ≡ true
  module_mapped table mod_start t lo hi =
      let page : (w : Word)
          → 0x400000 ≤ w
          → w < 0x800000
          → has_page (translate table (init_paging table) w) ≡ true =
        λ w l h.
          (let inside : (leb 0x400000 w && ltb w 0x800000 || leb 0xB8000 w && ltb w 0xBC000)
                ≡ true =
              ground arith in
            ap has_page (init_paging_lem table w t (omega arith)) ∙ rw inside refl) in
      ap₂ (λ x y. x && y) (page (add32 mod_start 4) (omega arith) (omega arith))
        (page (add32 (add32 mod_start 4) 3) (omega arith) (omega arith))

  set_up_waits :
      (table : Word) (read : Ports → ℕ → ℕ) (mod_start : Word) (m : Machine)
      → table % 2 ^ 12 ≡ 0
      → IsMapped mod_start
      → let k : Kernel = init_devices read (record (m.kernel) { paging = init_paging table }) in
        (image : Memory) × (set_up table read ram mod_start m
          ≡ waits (start_up image (record m { kernel = k })))
        × (mod_start ≢ 0 → image ≡ (λ x. ram (mod_start + x)))
  unfolding set_up init_devices
  set_up_waits table read mod_start m t (inl z) =
      let e : mod_start == 0 ≡ true = ground arith in (m.kernel.image, rw e refl, λ n. absurd (n z))
  set_up_waits table read mod_start m t (inr (lo, hi)) =
      let e : mod_start == 0 ≡ false = ground arith in
      ((λ x. ram (mod_start + x)), rw (e, module_mapped table mod_start t lo hi) refl, λ n. refl)

  up :
      (linked : Linked) (read : Ports → ℕ → ℕ) (mask : IsMaskRegister read) (mbi : Word)
      (image : Memory) (m m1 : Machine)
      → (load32 ram (load32 ram (mbi + 24)) ≢ 0
          → image ≡ (λ x. ram (load32 ram (load32 ram (mbi + 24)) + x)))
      → Printed m m1
      → let m2 : Machine =
          load_tss linked.tss linked.tss_size (load_ldt linked.ldt linked.ldt_size m1) in
        IsUp linked read ram mbi m (
          start_up image (record m2 {
            kernel = init_devices read (record (m2.kernel) { paging = init_paging linked.table });
          }))
  unfolding load_tss load_ldt init_devices
  up linked read mask mbi image m m1 same p =
      let m2 : Machine =
        load_tss linked.tss linked.tss_size (load_ldt linked.ldt linked.ldt_size m1) in
      let k : Kernel = record (m2.kernel) { paging = init_paging linked.table } in
      let c : Console = (init_devices read k).keys.con in
      record {
        interrupts = refl;
        masks = (update_cursor-Masked read mask c _ (init_devices-Masked read mask k)).mask_bits;
        paging = refl;
        esp0 = refl;
        ss0 = refl;
        task = refl;
        image = same;
        pid = p.pid;
        process_num = p.process_num;
        display = (cursor_home c).0 ∙ init_devices-display read k ∙ p.con.display;
        column = (cursor_home c).1;
        row = (cursor_home c).2;
      }

  -- With the magic number of a Multiboot loader, without both of the flags 4 and 5, with a memory map
  -- that is whole if there is one, with the module of the file system at 0 or inside the kernel's
  -- 4 MB from 0x400000 on, and with an aligned page table, entry comes to its end and waits for
  -- interrupts, and the kernel is set up.
  pub kernel_entry-IsUp :
      (linked : Linked) (read : Ports → ℕ → ℕ) (fuel : ℕ) (mbi : Word) (m : Machine)
      → IsMaskRegister read
      → (check_flag (load32 ram mbi) 4 && check_flag (load32 ram mbi) 5) ≡ false
      → (check_flag (load32 ram mbi) 6 ≡ true → HasMap ram text_at conv mbi fuel)
      → linked.table % 2 ^ 12 ≡ 0
      → IsMapped (load32 ram (load32 ram (mbi + 24)))
      → (m' : Machine) × (kernel_entry ram text_at conv linked read fuel 0x2BADB002 mbi m
          ≡ some (waits m'))
        × IsUp linked read ram mbi m m'
  unfolding kernel_entry
  kernel_entry-IsUp linked read fuel mbi m mask flags map aligned mapped =
      let (m1, e1, p1) = print_info-Yields ram text_at conv mbi (cleared m) in
      let (m2, e2, p2) = print_tables-Yields ram text_at conv fuel mbi m1 map in
      let (image, e3, same) =
        set_up_waits linked.table read (load32 ram (load32 ram (mbi + 24)))
          (load_tss linked.tss linked.tss_size (load_ldt linked.ldt linked.ldt_size m2)) aligned
          mapped in
      (
        _,
        rw (e1, flags, e2) (ap some e3),
        up linked read mask mbi image m m2 same (
            Printed-trans m (cleared m) m2 (cleared-Printed m)
              (Printed-trans (cleared m) m1 m2 p1 p2)),
      )
