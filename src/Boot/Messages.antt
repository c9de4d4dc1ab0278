-- ===== src/Boot/Messages.antt =====
-- The messages of entry in student-distrib/kernel.c all return: the loop over the modules, and the
-- loop over the memory map when the boot loader's map is a whole number of entries.
use mathlib.Core.Path.{subst}
use fuzzy_os.Base.{
  Bool, Bool-cases, List, Memory, Word, [], add32, arith, false, get_or, inl, inr, load32, ltb,
  refl, sign_extend8, suc, sym, true, zero, ℕ, ◌%◌, ◌*◌, ◌+◌, ◌<◌, ◌^◌, ◌∷◌, ◌≡◌, ◌≤◌,
}
use fuzzy_os.Boot.{
  check_flag, on_kernel, print, print_bytes, print_if, print_info, print_mmap, print_modules,
  print_tables,
}
use fuzzy_os.Boot.Printing.{
  Yields, Yields-bind, Yields-if, Yields-some, all_literal, all_literal-AllLiteral,
}
use fuzzy_os.Boot.State.{Machine}
use fuzzy_os.Boot.Texts.{
  boot_device_format, byte_format, cmdline_format, elf_format, first_bytes_format, flags_format,
  mem_format, mmap_entry_format, mmap_format, mod_end_format, mod_start_format, newline_format,
}
use fuzzy_os.Console.Rendering.{Piece}
use fuzzy_os.Console.Returning.{printf-returns}

-- The memory map as the Multiboot specification describes it: entries from `a` to `end`, each with
-- its size in front, which does not count the size field itself.
pub data IsMap (ram : Memory) (end : Word) : Word → Type 0 where
  at_end : IsMap ram end end
  before_entry : (a : Word) → a < end → IsMap ram end (a + load32 ram a + 4) → IsMap ram end a

IsMap-le : (ram : Memory) (end a : Word) → IsMap ram end a → a ≤ end
IsMap-le ram end _ at_end = omega arith
IsMap-le ram end _ (before_entry a l h) = omega (arith, l)

module _ (ram : Memory) (text_at : Word → List ℕ) (conv : ℕ → Memory) where
  -- The map that the information at `mbi` names is whole, and has an entry for each unit of fuel at most.
  abbrev pub HasMap : Word → ℕ → Type 0
  HasMap mbi fuel =
      IsMap ram (load32 ram (mbi + 48) + load32 ram (mbi + 44)) (load32 ram (mbi + 48))
      × (load32 ram (mbi + 48) + load32 ram (mbi + 44) < 2 ^ 32)
      × (load32 ram (mbi + 44) ≤ 4 * fuel)

  pub print-Yields :
      (ps : List Piece) (args : List Word) (m : Machine)
      → all_literal ps ≡ true
      → Yields m (print ram text_at conv ps args m)
  print-Yields ps args m h =
      let (n, c, e, o) =
        printf-returns text_at (λ i. get_or args i 0) conv ps m.kernel.keys.con
          (all_literal-AllLiteral ps h) in
      (
        on_kernel (λ k. record k { keys = record (k.keys) { con = c } }) m,
        rw e refl,
        record { pid = refl; process_num = refl; flag = refl; interrupts = refl; con = o },
      )

  print_if-Yields :
      (t : Bool) (ps : List Piece) (args : List Word) (m : Machine)
      → all_literal ps ≡ true
      → Yields m (print_if ram text_at conv t ps args m)
  print_if-Yields true ps args m h = print-Yields ps args m h
  print_if-Yields false ps args m h = Yields-some m

  print_bytes-Yields :
      (k i : ℕ) (a : Word) (m : Machine) → Yields m (print_bytes ram text_at conv k i a m)
  unfolding print_bytes
  print_bytes-Yields zero i a m = Yields-some m
  print_bytes-Yields (suc k) i a m =
      Yields-bind m _ _
        (print-Yields byte_format (sign_extend8 (ram ((a + i) % 2 ^ 32)) ∷ []) m refl)
        (λ m1. print_bytes-Yields k (i + 1) a m1)

  print_modules-Yields :
      (k i : ℕ) (a : Word) (m : Machine) → Yields m (print_modules ram text_at conv k i a m)
  unfolding print_modules
  print_modules-Yields zero i a m = Yields-some m
  print_modules-Yields (suc k) i a m =
      Yields-bind m _ _ (print-Yields mod_start_format (i ∷ load32 ram a ∷ []) m refl) (λ m1.
        Yields-bind m1 _ _ (print-Yields mod_end_format (i ∷ load32 ram (a + 4) ∷ []) m1 refl)
          (λ m2. Yields-bind m2 _ _ (print-Yields first_bytes_format [] m2 refl) (λ m3.
            Yields-bind m3 _ _ (print_bytes-Yields 16 0 (load32 ram a) m3) (λ m4.
              Yields-bind m4 _ _ (print-Yields newline_format [] m4 refl)
                (λ m5. print_modules-Yields k (i + 1) (a + 16) m5)))))

  pub print_info-Yields : (mbi : Word) (m : Machine) → Yields m (print_info ram text_at conv mbi m)
  unfolding print_info
  print_info-Yields mbi m =
      let flag : ℕ → Bool = check_flag (load32 ram mbi) in
      let word : ℕ → Word = λ i. load32 ram (mbi + i) in
      Yields-bind m _ _ (print-Yields flags_format (load32 ram mbi ∷ []) m refl) (λ m1.
        Yields-bind m1 _ _ (print_if-Yields (flag 0) mem_format (word 4 ∷ word 8 ∷ []) m1 refl)
          (λ m2.
            Yields-bind m2 _ _ (print_if-Yields (flag 1) boot_device_format (word 12 ∷ []) m2 refl)
              (λ m3.
                Yields-bind m3 _ _ (print_if-Yields (flag 2) cmdline_format (word 16 ∷ []) m3 refl)
                  (λ m4.
                    Yields-if m4 (flag 3) _ _ (print_modules-Yields (word 20) 0 (word 24) m4)
                      (Yields-some m4)))))

  next_entry : (a s end : Word) → a + s + 4 ≤ end → end < 2 ^ 32 → add32 (add32 a s) 4 ≡ a + s + 4
  next_entry a s end l w = omega arith

  -- The map is printed in as many rounds as it has entries.
  pub print_mmap-Yields :
      (f : ℕ) (end a : Word) (m : Machine)
      → IsMap ram end a
      → end < 2 ^ 32
      → end ≤ a + 4 * f
      → Yields m (print_mmap ram text_at conv f a end m)
  unfolding print_mmap
  print_mmap-Yields zero end _ m at_end w l =
      let t : ltb end end ≡ false = ground arith in rw t (Yields-some m)
  print_mmap-Yields (suc f) end _ m at_end w l =
      let t : ltb end end ≡ false = ground arith in rw t (Yields-some m)
  print_mmap-Yields zero end _ m (before_entry a q h) w l = absurd (omega (arith, q))
  print_mmap-Yields (suc f) end _ m (before_entry a q h) w l =
      let t : ltb a end ≡ true = ground arith in
      let low : a + load32 ram a + 4 ≤ end = IsMap-le ram end (a + load32 ram a + 4) h in
      let args : List Word =
        load32 ram a
        ∷ load32 ram (a + 8)
        ∷ load32 ram (a + 4)
        ∷ load32 ram (a + 20)
        ∷ load32 ram (a + 16)
        ∷ load32 ram (a + 12)
        ∷ [] in
      rw t (
        Yields-bind m _ _ (print-Yields mmap_entry_format args m refl) (λ m1.
          subst (λ x. Yields m1 (print_mmap ram text_at conv f x end m1))
            (sym (next_entry a (load32 ram a) end low w))
            (print_mmap-Yields f end (a + load32 ram a + 4) m1 h w (omega (arith, l, low)))))

  pub print_tables-Yields :
      (fuel : ℕ) (mbi : Word) (m : Machine)
      → (check_flag (load32 ram mbi) 6 ≡ true → HasMap mbi fuel)
      → Yields m (print_tables ram text_at conv fuel mbi m)
  unfolding print_tables
  print_tables-Yields fuel mbi m h =
      let word : ℕ → Word = λ i. load32 ram (mbi + i) in
      Yields-bind m _ _
        (print_if-Yields (check_flag (load32 ram mbi) 5) elf_format
          (word 28 ∷ word 32 ∷ word 36 ∷ word 40 ∷ []) m refl)
        (λ m1.
          Yields-bind m1 _ _
            (print_if-Yields (check_flag (load32 ram mbi) 6) mmap_format (word 48 ∷ word 44 ∷ []) m1
              refl)
            (λ m2. elim (Bool-cases (check_flag (load32 ram mbi) 6)) [
              | inl e ↦ rw e (
                  let (ok, room, fits) = h e in
                  let sum : add32 (word 48) (word 44) ≡ word 48 + word 44 = omega arith in
                  subst (λ end. Yields m2 (print_mmap ram text_at conv fuel (word 48) end m2))
                    (sym sum)
                    (print_mmap-Yields fuel (word 48 + word 44) (word 48) m2 ok room
                      (omega (arith, fits))))
              | inr e ↦ rw e (Yields-some m2)
            ]))
