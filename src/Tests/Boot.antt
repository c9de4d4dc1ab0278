-- ===== src/Tests/Boot.antt =====
-- The interrupt table, exceptions (student-distrib/create_handler.c) and booting
-- (student-distrib/kernel.c).
use fuzzy_os.Base.{
  Memory, Word, [], arith, false, if◌then◌else◌, inl, inr, refl, some, true, ℕ, ◌*◌, ◌++◌, ◌+◌, ◌<◌,
  ◌==◌, ◌^◌, ◌∷◌, ◌≡◌,
}
use fuzzy_os.Boot.{faults, kernel_entry, waits}
use fuzzy_os.Boot.Booting.{IsUp, kernel_entry-IsUp}
use fuzzy_os.Boot.Failing.{kernel_entry_faults}
use fuzzy_os.Boot.Messages.{HasMap, at_end, before_entry}
use fuzzy_os.Boot.State.{Linked, Machine, SegDesc}
use fuzzy_os.Interrupts.{EntryPoint, Gate, init_idt, page_fault}
use fuzzy_os.Interrupts.Exceptions.{handler-exception_flag, handler-resumed}
use fuzzy_os.Interrupts.Faults.{page_fault_handler-report, report}
use fuzzy_os.Interrupts.Handlers.{handler, page_fault_handler}
use fuzzy_os.Interrupts.Table.{init_idt-privilege, target, target-init_idt, vector}
use fuzzy_os.Kernel.{Kernel, current_num, frame_address, get_pcb}
use fuzzy_os.Paging.{init_paging}
use fuzzy_os.Paging.Walk.{translate}
use fuzzy_os.Process.{final, halt, print_text, resumed}
use fuzzy_os.Tests.Machine.{blank, call0, kernel0, kernel1}
use fuzzy_os.Tests.Strings.{masks, masks-IsMaskRegister}

abbrev addresses : EntryPoint → Word
addresses e = 0x400000 + 16 * vector e

abbrev no_gate : Gate
no_gate = record {
  offset_15_00 = 0;
  seg_selector = 0;
  reserved4 = 0;
  reserved3 = 0;
  reserved2 = 0;
  reserved1 = 0;
  size = 0;
  reserved0 = 0;
  dpl = 0;
  present = 0;
  offset_31_16 = 0;
}

init_idt-privilege_example :
    ((init_idt addresses blank (λ i. no_gate) 0x80).present ≡ 1)
    × ((init_idt addresses blank (λ i. no_gate) 0x80).seg_selector ≡ 0x10)
    × ((init_idt addresses blank (λ i. no_gate) 0x80).dpl ≡ 3)
init_idt-privilege_example = init_idt-privilege addresses blank (λ i. no_gate) 0x80 (omega arith)

target-init_idt_example :
    target (init_idt addresses blank (λ i. no_gate) 0x0E) ≡ addresses page_fault
target-init_idt_example = target-init_idt addresses blank (λ i. no_gate) page_fault (omega arith)

handler-resumed_example :
    (k' : Kernel) × (handler call0 0x5000 13 kernel1
      ≡ resumed 256 (get_pcb kernel1).parent_esp (get_pcb kernel1).parent_ebp k')
    × (k'.pid ≡ 2)
    × (current_num k' ≡ 0)
    × ((x : ℕ)
        → x < 2 ^ 22
        → translate 0x5000 k'.paging (0x8000000 + x) ≡ some (frame_address 0 0 + x, true))
handler-resumed_example =
    handler-resumed call0 0x5000 13 kernel1 (omega arith) (omega arith) (omega arith)

handler-exception_flag_example : (final (handler call0 0x5000 0 kernel0)).exception_flag ≡ 1
handler-exception_flag_example = handler-exception_flag call0 0x5000 0 kernel0

page_fault_handler-report_example :
    page_fault_handler (λ a. []) (λ i. blank) call0 0x5000 14 6 0x8048000 0 0x7FDF00 kernel1
    ≡ some (
        halt call0 0x5000 0
          (record (print_text (report 14 6 0x8048000 0 0x7FDF00 ++ (10 ∷ [])) kernel1) {
            exception_flag = 1;
          }))
page_fault_handler-report_example =
    page_fault_handler-report (λ a. []) (λ i. blank) call0 0x5000 14 6 0x8048000 0 0x7FDF00 kernel1
      (omega arith) (omega arith) (omega arith) (omega arith)

-- What a loader leaves at address 0: flags 3 and 6, one module at 0x500000, and a map of one entry.
abbrev loaded : Memory
loaded i =
    if i == 0
    then 72
    else if i == 20
    then 1
    else if i == 24
    then 128
    else if i == 44
    then 24
    else if i == 48
    then 96
    else if i == 96
    then 20
    else if i == 130
    then 0x50
    else 0

abbrev no_desc : SegDesc
no_desc = record {
  seg_lim_15_00 = 0;
  base_15_00 = 0;
  base_23_16 = 0;
  seg_type = 0;
  sys = 0;
  dpl = 0;
  present = 0;
  seg_lim_19_16 = 0;
  avail = 0;
  reserved = 0;
  opsize = 0;
  granularity = 0;
  base_31_24 = 0;
}

abbrev machine0 : Machine
machine0 = record {
  kernel = kernel0;
  ldt_desc = no_desc;
  tss_desc = no_desc;
  ldtr = 0;
  tss_ldt = 0;
  task_register = 0;
  interrupts_on = false;
}

abbrev linked0 : Linked
linked0 = record { table = 0x5000; ldt = 0x6000; ldt_size = 31; tss = 0x7000; tss_size = 103 }

loaded-HasMap : HasMap loaded (λ a. []) (λ i. blank) 0 6
loaded-HasMap = (before_entry 96 (omega arith) at_end, omega arith, omega arith)

kernel_entry-IsUp_example :
    (m' : Machine) × (kernel_entry loaded
        (λ a. [])
        (λ i. blank)
        linked0
        masks
        6
        0x2BADB002
        0
        machine0
      ≡ some (waits m'))
    × IsUp linked0 masks loaded 0 machine0 m'
kernel_entry-IsUp_example =
    kernel_entry-IsUp loaded (λ a. []) (λ i. blank) linked0 masks 6 0 machine0 masks-IsMaskRegister
      refl (λ e. loaded-HasMap) refl (inr (omega arith, omega arith))

-- The same with the module at 0x1000, where nothing is mapped.
abbrev loaded_low : Memory
loaded_low i = if i == 130 then 0 else if i == 129 then 0x10 else loaded i

loaded_low-HasMap : HasMap loaded_low (λ a. []) (λ i. blank) 0 6
loaded_low-HasMap = (before_entry 96 (omega arith) at_end, omega arith, omega arith)

kernel_entry_faults_example :
    (m' : Machine) × (kernel_entry loaded_low
        (λ a. [])
        (λ i. blank)
        linked0
        masks
        6
        0x2BADB002
        0
        machine0
      ≡ some (faults 0x1004 m'))
    × (m'.kernel.paging ≡ init_paging 0x5000)
    × (m'.kernel.pid ≡ 2)
    × (m'.interrupts_on ≡ false)
kernel_entry_faults_example =
    kernel_entry_faults loaded_low (λ a. []) (λ i. blank) linked0 masks 6 0 machine0 refl
      (λ e. loaded_low-HasMap) refl (omega arith, inl (omega arith))
