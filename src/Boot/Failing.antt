-- ===== src/Boot/Failing.antt =====
-- entry of student-distrib/kernel.c where it does not come to the wait for interrupts: it goes back to
-- boot.S, or the read of the file system's module is a page fault.
use fuzzy_os.Base.{
  Bool-cases, List, Memory, Ports, Word, [], add32, ap, arith, false, inl, inr, leb, load32, ltb,
  map, refl, some, true, ℕ, ◌%◌, ◌&&◌, ◌+◌, ◌<◌, ◌==◌, ◌^◌, ◌||◌, ◌∙◌, ◌∷◌, ◌≡◌, ◌≢◌, ◌≤◌, ◌⊎◌,
}
use fuzzy_os.Boot.{
  check_flag, faults, has_page, init_devices, is_mapped, kernel_entry, load_ldt, load_tss, returns,
  set_up,
}
use fuzzy_os.Boot.Booting.{cleared, cleared-Printed}
use fuzzy_os.Boot.Messages.{HasMap, print-Yields, print_info-Yields, print_tables-Yields}
use fuzzy_os.Boot.Printing.{Printed, Printed-trans}
use fuzzy_os.Boot.State.{Linked, Machine}
use fuzzy_os.Boot.Texts.{both_bits_format, magic_format}
use fuzzy_os.Paging.{init_paging}
use fuzzy_os.Paging.Maps.{init_paging_lem}
use fuzzy_os.Paging.Walk.{translate}

module _ (ram : Memory) (text_at : Word → List ℕ) (conv : ℕ → Memory) where
  -- Behind the start of the module stand no bytes that init_paging maps.
  abbrev pub IsUnmapped : Word → Type 0
  IsUnmapped mod_start =
      (mod_start ≢ 0)
      × ((add32 mod_start 4 < 0xB8000)
          ⊎ ((0xBC000 ≤ add32 mod_start 4) × (add32 mod_start 4 < 0x400000))
          ⊎ (0x800000 ≤ add32 mod_start 4))

  set_up_faults :
      (table : Word) (read : Ports → ℕ → ℕ) (mod_start : Word) (m : Machine)
      → table % 2 ^ 12 ≡ 0
      → IsUnmapped mod_start
      → (m' : Machine) × (set_up table read ram mod_start m ≡ faults (add32 mod_start 4) m')
        × (m'.kernel.paging ≡ init_paging table)
        × (m'.kernel.pid ≡ m.kernel.pid)
        × (m'.interrupts_on ≡ m.interrupts_on)
  unfolding set_up init_devices
  set_up_faults table read mod_start m t (n, outside) =
      let w : Word = add32 mod_start 4 in
      let e : mod_start == 0 ≡ false = ground (arith, n) in
      let out : (leb 0x400000 w && ltb w 0x800000 || leb 0xB8000 w && ltb w 0xBC000) ≡ false =
        ground (arith, outside) in
      let first : has_page (translate table (init_paging table) w) ≡ false =
        ap has_page (init_paging_lem table w t (omega arith)) ∙ rw out refl in
      let no_page : is_mapped table (init_paging table) w ≡ false =
        ap (λ b. b && has_page (translate table (init_paging table) (add32 w 3))) first in
      (
        record m { kernel = init_devices read (record (m.kernel) { paging = init_paging table }) },
        rw (e, no_page) refl,
        refl,
        refl,
        refl,
      )

  -- With the module of the file system neither at 0 nor where init_paging maps memory, in the kernel's
  -- 4 MB from 0x400000 on or in the text memory, entry prints and then ends in a page fault at the
  -- second word of the module: the page tables are those of init_paging, no process has been counted,
  -- and interrupts are as they were.
  pub kernel_entry_faults :
      (linked : Linked) (read : Ports → ℕ → ℕ) (fuel : ℕ) (mbi : Word) (m : Machine)
      → (check_flag (load32 ram mbi) 4 && check_flag (load32 ram mbi) 5) ≡ false
      → (check_flag (load32 ram mbi) 6 ≡ true → HasMap ram text_at conv mbi fuel)
      → linked.table % 2 ^ 12 ≡ 0
      → IsUnmapped (load32 ram (load32 ram (mbi + 24)))
      → (m' : Machine) × (kernel_entry ram text_at conv linked read fuel 0x2BADB002 mbi m
          ≡ some (faults (add32 (load32 ram (load32 ram (mbi + 24))) 4) m'))
        × (m'.kernel.paging ≡ init_paging linked.table)
        × (m'.kernel.pid ≡ m.kernel.pid)
        × (m'.interrupts_on ≡ m.interrupts_on)
  unfolding kernel_entry load_ldt load_tss
  kernel_entry_faults linked read fuel mbi m flags map aligned unmapped =
      let (m1, e1, p1) = print_info-Yields ram text_at conv mbi (cleared m) in
      let (m2, e2, p2) = print_tables-Yields ram text_at conv fuel mbi m1 map in
      let (m3, e3, pages, pid, on) =
        set_up_faults linked.table read (load32 ram (load32 ram (mbi + 24)))
          (load_tss linked.tss linked.tss_size (load_ldt linked.ldt linked.ldt_size m2)) aligned
          unmapped in
      let all =
        Printed-trans m (cleared m) m2 (cleared-Printed m)
          (Printed-trans (cleared m) m1 m2 p1 p2) in
      (m3, rw (e1, flags, e2) (ap some e3), pages, pid ∙ all.pid, on ∙ all.interrupts)

  bad_magic :
      (linked : Linked) (read : Ports → ℕ → ℕ) (fuel : ℕ) (magic mbi : Word) (m : Machine)
      → (magic == 0x2BADB002) ≡ false
      → (m' : Machine) × (kernel_entry ram text_at conv linked read fuel magic mbi m
          ≡ some (returns m'))
        × Printed m m'
  unfolding kernel_entry
  bad_magic linked read fuel magic mbi m t =
      let (m1, e, p) = print-Yields ram text_at conv magic_format (magic ∷ []) (cleared m) refl in
      (m1, rw (t, e) refl, Printed-trans m (cleared m) m1 (cleared-Printed m) p)

  -- With another magic number, or with both of the flags 4 and 5, entry goes back to boot.S, and has
  -- done no more than print.
  pub kernel_entry_returns :
      (linked : Linked) (read : Ports → ℕ → ℕ) (fuel : ℕ) (magic mbi : Word) (m : Machine)
      → (magic ≢ 0x2BADB002)
        ⊎ ((check_flag (load32 ram mbi) 4 && check_flag (load32 ram mbi) 5) ≡ true)
      → (m' : Machine) × (kernel_entry ram text_at conv linked read fuel magic mbi m
          ≡ some (returns m'))
        × Printed m m'
  unfolding kernel_entry
  kernel_entry_returns linked read fuel magic mbi m (inl h) =
      bad_magic linked read fuel magic mbi m (ground arith)
  kernel_entry_returns linked read fuel magic mbi m (inr h) =
      elim (Bool-cases (magic == 0x2BADB002)) [
        | inr t ↦ bad_magic linked read fuel magic mbi m t
        | inl t ↦
            let (m1, e1, p1) = print_info-Yields ram text_at conv mbi (cleared m) in
            let (m2, e2, p2) = print-Yields ram text_at conv both_bits_format [] m1 refl in
            (
              m2,
              rw (t, e1, h, e2) refl,
              Printed-trans m (cleared m) m2 (cleared-Printed m)
                  (Printed-trans (cleared m) m1 m2 p1 p2),
            )
      ]
