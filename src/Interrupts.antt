-- ===== src/Interrupts.antt =====
-- student-distrib/create_handler.c: the interrupt descriptor table, and the handlers that the
-- assembly linkage calls for an exception and for an interrupt of a device.
pub mod Messages
pub mod Table
pub mod Handlers
pub mod Exceptions
pub mod Faults
use fuzzy_os.Base.{
  Word, [], get_or, if◌then◌else◌, suc, update, zero, ℕ, ◌%◌, ◌+◌, ◌/◌, ◌==◌, ◌^◌, ◌∷◌,
}

-- The assembly entry points.
pub data EntryPoint : Type 0 where
  divide_by_zero : EntryPoint
  debug_exception : EntryPoint
  non_maskable_interrupt : EntryPoint
  breakpoint_exception : EntryPoint
  overflow_exception : EntryPoint
  bound_range_exceeded : EntryPoint
  invalid_opcode : EntryPoint
  device_not_available : EntryPoint
  double_fault : EntryPoint
  coprocessor_segment : EntryPoint
  invalid_tss : EntryPoint
  segment_not_present : EntryPoint
  stack_fault : EntryPoint
  general_protection : EntryPoint
  page_fault : EntryPoint
  floating_point_error : EntryPoint
  alignment_check : EntryPoint
  machine_check : EntryPoint
  simd_floating_point : EntryPoint
  pit_interrupt : EntryPoint
  keyboard_interrupt : EntryPoint
  rtc_interrupt : EntryPoint
  system_call : EntryPoint

-- `idt_desc_t` of student-distrib/x86_desc.h
pub record Gate : Type 0 where
  pub offset_15_00 : ℕ
  pub seg_selector : ℕ
  pub reserved4 : ℕ
  pub reserved3 : ℕ
  pub reserved2 : ℕ
  pub reserved1 : ℕ
  pub size : ℕ
  pub reserved0 : ℕ
  pub dpl : ℕ
  pub present : ℕ
  pub offset_31_16 : ℕ

abbrev pub kernel_cs : ℕ
kernel_cs = 0x10

abbrev pub num_vec : ℕ
num_vec = 256

-- `SET_IDT_ENTRY`, with a function's address
abbrev pub set_offset : Word → Gate → Gate
set_offset handler g = record g {
  offset_31_16 = handler / 2 ^ 16 % 2 ^ 16;
  offset_15_00 = handler % 2 ^ 16;
}

-- The loop's body: the bits of entry `i`.
abbrev pub set_bits : ℕ → Gate → Gate
set_bits i g = record g {
  present = 1;
  dpl = if i == 0x80 then 3 else 0;
  size = 1;
  seg_selector = kernel_cs;
  reserved0 = 0;
  reserved1 = 1;
  reserved2 = 1;
  reserved3 = 0;
  reserved4 = 0;
}

-- `address` is where the linker puts an entry point, and `above` what stands in memory behind the
-- twenty pointers of `func_pointers`.
module _ (address : EntryPoint → Word) (above : ℕ → Word) where
  -- `func_pointers[i]`
  unfoldable pub func_pointers : ℕ → Word
  func_pointers i =
      get_or
        (address divide_by_zero
          ∷ address debug_exception
          ∷ address non_maskable_interrupt
          ∷ address breakpoint_exception
          ∷ address overflow_exception
          ∷ address bound_range_exceeded
          ∷ address invalid_opcode
          ∷ address device_not_available
          ∷ address double_fault
          ∷ address coprocessor_segment
          ∷ address invalid_tss
          ∷ address segment_not_present
          ∷ address stack_fault
          ∷ address general_protection
          ∷ address page_fault
          ∷ 0
          ∷ address floating_point_error
          ∷ address alignment_check
          ∷ address machine_check
          ∷ address simd_floating_point
          ∷ [])
        i (above i)

  -- The loop, from `i` on with `k` rounds left.
  unfoldable pub fill_idt : ℕ → ℕ → (ℕ → Gate) → ℕ → Gate
  fill_idt zero i idt = idt
  fill_idt (suc k) i idt =
      fill_idt k (i + 1) (update idt i (set_offset (func_pointers i) (set_bits i (idt i))))

  abbrev pub set_entry_point : ℕ → EntryPoint → (ℕ → Gate) → ℕ → Gate
  set_entry_point i e idt = update idt i (set_offset (address e) (idt i))

  -- init_idt
  unfoldable pub init_idt : (ℕ → Gate) → ℕ → Gate
  init_idt idt = set_entry_point 0x80 system_call (
      set_entry_point 0x28 rtc_interrupt (
        set_entry_point 0x21 keyboard_interrupt
          (set_entry_point 0x20 pit_interrupt (fill_idt num_vec 0 idt))))
