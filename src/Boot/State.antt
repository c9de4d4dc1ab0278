-- ===== src/Boot/State.antt =====
-- What entry of student-distrib/kernel.c works on besides the kernel's own state: the descriptors
-- and registers of student-distrib/x86_desc.h.
use fuzzy_os.Base.{Bool, Word, ℕ, ◌%◌, ◌/◌, ◌^◌}
use fuzzy_os.Kernel.{Kernel}

-- `seg_desc_t`; its `type` is `seg_type`.
pub record SegDesc : Type 0 where
  pub seg_lim_15_00 : ℕ
  pub base_15_00 : ℕ
  pub base_23_16 : ℕ
  pub seg_type : ℕ
  pub sys : ℕ
  pub dpl : ℕ
  pub present : ℕ
  pub seg_lim_19_16 : ℕ
  pub avail : ℕ
  pub reserved : ℕ
  pub opsize : ℕ
  pub granularity : ℕ
  pub base_31_24 : ℕ

-- `SET_LDT_PARAMS` and `SET_TSS_PARAMS`, which are the same
abbrev pub set_params : Word → Word → SegDesc → SegDesc
set_params addr lim d = record d {
  base_31_24 = addr / 2 ^ 24 % 2 ^ 8;
  base_23_16 = addr / 2 ^ 16 % 2 ^ 8;
  base_15_00 = addr % 2 ^ 16;
  seg_lim_19_16 = lim / 2 ^ 16 % 2 ^ 4;
  seg_lim_15_00 = lim % 2 ^ 16;
}

-- The kernel's state, the two descriptors, the selectors in LDTR, the TSS and the task register, and
-- the interrupt flag.
pub record Machine : Type 0 where
  pub kernel : Kernel
  pub ldt_desc : SegDesc
  pub tss_desc : SegDesc
  pub ldtr : ℕ
  pub tss_ldt : ℕ
  pub task_register : ℕ
  pub interrupts_on : Bool

-- Where the linker puts the tables, and the limits of x86_desc.S.
pub record Linked : Type 0 where
  pub table : Word
  pub ldt : Word
  pub ldt_size : Word
  pub tss : Word
  pub tss_size : Word
