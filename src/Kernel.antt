-- ===== src/Kernel.antt =====
-- The state that the system calls of student-distrib/system_call.c share: the descriptors and the
-- process control blocks (student-distrib/system_call.h), the counts of processes, and the parts
-- that Display, Paging, Rtc and FileSystem model; and the address arithmetic that gives each process
-- its block, its kernel stack and its 4 MB of memory.
pub mod Layout
use fuzzy_os.Base.{List, Memory, Word, add32, minus_one, mul32, sub32, update, ℕ}
use fuzzy_os.Display.{Keyboard}
use fuzzy_os.Paging.{Paging}
use fuzzy_os.Rtc.{Rtc}

-- the tables of function pointers that a descriptor may name
pub data Fops : Type 0 where
  no_fops : Fops
  file_fops : Fops
  directory_fops : Fops
  rtc_fops : Fops
  terminal_fops : Fops

-- `fda_entry_t`
pub record FdaEntry : Type 0 where
  pub fops : Fops
  pub inode : Word
  pub file_position : Word
  pub flags : ℕ

-- `pcb_t`; `params` is the text that the pointer points to.
pub record Pcb : Type 0 where
  pub fda : ℕ → FdaEntry
  pub pid : Word
  pub parent_pid : Word
  pub parent_esp : Word
  pub parent_ebp : Word
  pub params : List ℕ

-- `pcbs` and `frames` are physical memory, by the address of a block or of a 4 MB frame; `pid` and
-- `process_num` are the counts; `esp0` and `ss0` stand in the TSS.
pub record Kernel : Type 0 where
  pub keys : Keyboard
  pub paging : Paging
  pub rtc : Rtc
  pub image : Memory
  pub pcbs : Word → Pcb
  pub frames : Word → Memory
  pub pid : Word
  pub process_num : ℕ → Word
  pub exception_flag : ℕ
  pub esp0 : Word
  pub ss0 : ℕ

abbrev pub user_mem_start : Word
user_mem_start = 0x8000000

abbrev pub user_phys_mem_start : Word
user_phys_mem_start = 0x800000

abbrev pub user_mem_size : Word
user_mem_size = 0x400000

abbrev pub kernel_stack_size : Word
kernel_stack_size = 0x2000

abbrev pub num_terminals : ℕ
num_terminals = 3

abbrev pub fda_min_index : ℕ
fda_min_index = 2

abbrev pub fda_max_index : ℕ
fda_max_index = 7

abbrev pub fda_max_of : ℕ
fda_max_of = 8

abbrev pub max_pid : Word
max_pid = 5

-- The address that getPCB computes, for process `n` of terminal `t`.
unfoldable pub pcb_address : ℕ → Word → Word
pcb_address t n =
    sub32 (sub32 user_phys_mem_start (mul32 kernel_stack_size (add32 t 1)))
      (mul32 (mul32 n num_terminals) kernel_stack_size)

-- `tss.esp0` of execute, halt and the scheduler
unfoldable pub stack_top : ℕ → Word → Word
unfolding pcb_address
stack_top t n = sub32 (pcb_address t n) 4

-- the physical address that the user page of process `n` of terminal `t` is mapped to
unfoldable pub frame_address : ℕ → Word → Word
frame_address t n =
    add32 (add32 user_phys_mem_start (mul32 t user_mem_size))
      (mul32 (mul32 n num_terminals) user_mem_size)

-- `cur_execute_terminal`
abbrev pub current : Kernel → ℕ
current k = k.keys.con.execute

-- the number of the running process among those of its terminal
abbrev pub current_num : Kernel → Word
current_num k = k.process_num (current k)

abbrev pub current_address : Kernel → Word
current_address k = pcb_address (current k) (current_num k)

-- `*getPCB()`
abbrev pub get_pcb : Kernel → Pcb
get_pcb k = k.pcbs (current_address k)

abbrev pub set_pcb : Pcb → Kernel → Kernel
set_pcb p k = record k { pcbs = update k.pcbs (current_address k) p }

-- `pcb->fda[fd]`
abbrev pub entry : Kernel → ℕ → FdaEntry
entry k fd = (get_pcb k).fda fd

abbrev pub set_entry : ℕ → FdaEntry → Kernel → Kernel
set_entry fd e k = set_pcb (record (get_pcb k) { fda = update (get_pcb k).fda fd e }) k

-- A descriptor that is not in use, as close and halt leave it.
abbrev pub closed_entry : FdaEntry
closed_entry = record { fops = no_fops; inode = minus_one; file_position = minus_one; flags = 0 }
