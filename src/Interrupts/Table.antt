-- ===== src/Interrupts/Table.antt =====
-- What init_idt of student-distrib/create_handler.c leaves in the interrupt descriptor table.
use mathlib.Core.Path.{subst}
use fuzzy_os.Base.{
  Bool, Bool-cases, Word, ap, arith, false, if◌then◌else◌, inl, inr, leb, ltb, refl, suc, true,
  update, zero, ℕ, ◌&&◌, ◌*◌, ◌+◌, ◌<◌, ◌==◌, ◌^◌, ◌||◌, ◌∙◌, ◌≡◌,
}
use fuzzy_os.Interrupts.{
  EntryPoint, Gate, alignment_check, bound_range_exceeded, breakpoint_exception,
  coprocessor_segment, debug_exception, device_not_available, divide_by_zero, double_fault,
  fill_idt, floating_point_error, func_pointers, general_protection, init_idt, invalid_opcode,
  invalid_tss, keyboard_interrupt, machine_check, non_maskable_interrupt, overflow_exception,
  page_fault, pit_interrupt, rtc_interrupt, segment_not_present, set_bits, set_entry_point,
  set_offset, simd_floating_point, stack_fault, system_call,
}

-- The vector that an entry point serves, as the processor and the interrupt controllers number them.
abbrev pub vector : EntryPoint → ℕ
vector divide_by_zero = 0
vector debug_exception = 1
vector non_maskable_interrupt = 2
vector breakpoint_exception = 3
vector overflow_exception = 4
vector bound_range_exceeded = 5
vector invalid_opcode = 6
vector device_not_available = 7
vector double_fault = 8
vector coprocessor_segment = 9
vector invalid_tss = 10
vector segment_not_present = 11
vector stack_fault = 12
vector general_protection = 13
vector page_fault = 14
vector floating_point_error = 16
vector alignment_check = 17
vector machine_check = 18
vector simd_floating_point = 19
vector pit_interrupt = 0x20
vector keyboard_interrupt = 0x21
vector rtc_interrupt = 0x28
vector system_call = 0x80

-- Where a gate leads.
abbrev pub target : Gate → Word
target g = g.offset_31_16 * 2 ^ 16 + g.offset_15_00

target-set_offset : (a : Word) (g : Gate) → a < 2 ^ 32 → target (set_offset a g) ≡ a
target-set_offset a g h = omega arith

-- A gate with the bits of vector `i`, and a table of such gates.
abbrev HasBits : ℕ → Gate → Type 0
HasBits i g = (a : Word) × (b : Gate) × (g ≡ set_offset a (set_bits i b))

abbrev AllHaveBits : (ℕ → Gate) → Type 0
AllHaveBits idt = (y : ℕ) → y < 256 → HasBits y (idt y)

module _ (address : EntryPoint → Word) (above : ℕ → Word) where
  fill_idt_lem :
      (k i y : ℕ) (idt : ℕ → Gate)
      → fill_idt address above k i idt y ≡ (
          if leb i y && ltb y (i + k)
          then set_offset (func_pointers address above y) (set_bits y (idt y))
          else idt y)
  unfolding fill_idt
  fill_idt_lem zero i y idt = ground arith
  fill_idt_lem (suc k) i y idt = ground (
    arith,
    fill_idt_lem k (i + 1) y
        (update idt i (set_offset (func_pointers address above i) (set_bits i (idt i)))),
  )

  filled :
      (y : ℕ) (idt : ℕ → Gate)
      → y < 256
      → fill_idt address above 256 0 idt y
        ≡ set_offset (func_pointers address above y) (set_bits y (idt y))
  filled y idt h =
      let t : leb 0 y && ltb y (0 + 256) ≡ true = ground arith in
      fill_idt_lem 256 0 y idt ∙ rw t refl

  -- The gates that the lines behind the loop set again.
  abbrev is_device : ℕ → Bool
  is_device y = y == 0x80 || y == 0x28 || y == 0x21 || y == 0x20

  set_entry_point-AllHaveBits :
      (x : ℕ) (e : EntryPoint) (idt : ℕ → Gate)
      → x < 256
      → AllHaveBits idt
      → AllHaveBits (set_entry_point address above x e idt)
  set_entry_point-AllHaveBits x e idt l h y k = elim (Bool-cases (y == x)) [
    | inl t ↦
        let (a, b, q) = h x l in
        let same : x ≡ y = ground arith in
        rw t (
          subst (λ i. HasBits i (set_offset (address e) (idt x))) same
            (address e, b, ap (set_offset (address e)) q))
    | inr t ↦ rw t (h y k)
  ]

  init_idt-AllHaveBits : (idt : ℕ → Gate) → AllHaveBits (init_idt address above idt)
  unfolding init_idt
  init_idt-AllHaveBits idt =
      let devices : AllHaveBits (
          set_entry_point address above 0x21 keyboard_interrupt
            (set_entry_point address above 0x20 pit_interrupt (fill_idt address above 256 0 idt))) =
        set_entry_point-AllHaveBits 0x21 keyboard_interrupt _ (omega arith) (
          set_entry_point-AllHaveBits 0x20 pit_interrupt _ (omega arith)
            (λ y l. (func_pointers address above y, idt y, filled y idt l))) in
      set_entry_point-AllHaveBits 0x80 system_call _ (omega arith)
        (set_entry_point-AllHaveBits 0x28 rtc_interrupt _ (omega arith) devices)

  -- All 256 gates are marked as present and have the kernel's code segment, and the privilege level
  -- from which a program may raise the vector itself is that of programs for vector 0x80 alone.
  pub init_idt-privilege :
      (idt : ℕ → Gate) (i : ℕ)
      → i < 256
      → ((init_idt address above idt i).present ≡ 1)
        × ((init_idt address above idt i).seg_selector ≡ 0x10)
        × ((init_idt address above idt i).dpl ≡ (if i == 0x80 then 3 else 0))
  init_idt-privilege idt i h =
      let (a, b, e) = init_idt-AllHaveBits idt i h in rw e (refl, refl, refl)

  init_idt_plain :
      (y : ℕ) (a : Word) (idt : ℕ → Gate)
      → is_device y ≡ false
      → y < 256
      → func_pointers address above y ≡ a
      → a < 2 ^ 32
      → target (init_idt address above idt y) ≡ a
  unfolding init_idt
  init_idt_plain y a idt n l e h =
      let e1 : y == 0x80 ≡ false = ground arith in
      let e2 : y == 0x28 ≡ false = ground arith in
      let e3 : y == 0x21 ≡ false = ground arith in
      let e4 : y == 0x20 ≡ false = ground arith in
      rw (e1, e2, e3, e4) (rw (filled y idt l) (rw e (target-set_offset a (set_bits y (idt y)) h)))

  -- The gate of every exception, of each of the three devices and of the system calls leads to the entry point
  -- that serves it.
  pub target-init_idt :
      (idt : ℕ → Gate) (e : EntryPoint)
      → address e < 2 ^ 32
      → target (init_idt address above idt (vector e)) ≡ address e
  unfolding init_idt func_pointers
  target-init_idt idt divide_by_zero h =
      init_idt_plain 0 (address divide_by_zero) idt refl (omega arith) refl h
  target-init_idt idt debug_exception h =
      init_idt_plain 1 (address debug_exception) idt refl (omega arith) refl h
  target-init_idt idt non_maskable_interrupt h =
      init_idt_plain 2 (address non_maskable_interrupt) idt refl (omega arith) refl h
  target-init_idt idt breakpoint_exception h =
      init_idt_plain 3 (address breakpoint_exception) idt refl (omega arith) refl h
  target-init_idt idt overflow_exception h =
      init_idt_plain 4 (address overflow_exception) idt refl (omega arith) refl h
  target-init_idt idt bound_range_exceeded h =
      init_idt_plain 5 (address bound_range_exceeded) idt refl (omega arith) refl h
  target-init_idt idt invalid_opcode h =
      init_idt_plain 6 (address invalid_opcode) idt refl (omega arith) refl h
  target-init_idt idt device_not_available h =
      init_idt_plain 7 (address device_not_available) idt refl (omega arith) refl h
  target-init_idt idt double_fault h =
      init_idt_plain 8 (address double_fault) idt refl (omega arith) refl h
  target-init_idt idt coprocessor_segment h =
      init_idt_plain 9 (address coprocessor_segment) idt refl (omega arith) refl h
  target-init_idt idt invalid_tss h =
      init_idt_plain 10 (address invalid_tss) idt refl (omega arith) refl h
  target-init_idt idt segment_not_present h =
      init_idt_plain 11 (address segment_not_present) idt refl (omega arith) refl h
  target-init_idt idt stack_fault h =
      init_idt_plain 12 (address stack_fault) idt refl (omega arith) refl h
  target-init_idt idt general_protection h =
      init_idt_plain 13 (address general_protection) idt refl (omega arith) refl h
  target-init_idt idt page_fault h =
      init_idt_plain 14 (address page_fault) idt refl (omega arith) refl h
  target-init_idt idt floating_point_error h =
      init_idt_plain 16 (address floating_point_error) idt refl (omega arith) refl h
  target-init_idt idt alignment_check h =
      init_idt_plain 17 (address alignment_check) idt refl (omega arith) refl h
  target-init_idt idt machine_check h =
      init_idt_plain 18 (address machine_check) idt refl (omega arith) refl h
  target-init_idt idt simd_floating_point h =
      init_idt_plain 19 (address simd_floating_point) idt refl (omega arith) refl h
  target-init_idt idt pit_interrupt h = omega (arith, h)
  target-init_idt idt keyboard_interrupt h = omega (arith, h)
  target-init_idt idt rtc_interrupt h = omega (arith, h)
  target-init_idt idt system_call h = omega (arith, h)
