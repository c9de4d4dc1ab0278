-- ===== src/Process.antt =====
-- execute and halt of student-distrib/system_call.c. What does not come back to its caller is a
-- result of its own: a program that starts, or the parent that goes on.
pub mod Command
pub mod Keeping
pub mod Counts
pub mod Starting
pub mod Ending
pub mod Running
pub mod Returning
use fuzzy_os.Base.{
  Bool, List, Memory, Option, Word, [], add32, get_or, if◌then◌else◌, leb, length, load32, ltb,
  minus_one, none, not, slt, some, sub32, suc, update, zero, ℕ, ◌&&◌, ◌+◌, ◌-◌, ◌==◌, ◌||◌, ◌∷◌,
}
use fuzzy_os.Clib.Strings.{text_of}
use fuzzy_os.Console.{puts}
use fuzzy_os.FileSystem.{Dentry, inode_length, read_data}
use fuzzy_os.Files.{look_up}
use fuzzy_os.Kernel.{
  FdaEntry, Kernel, closed_entry, current, current_address, current_num, entry, fda_min_index,
  frame_address, get_pcb, max_pid, stack_top, terminal_fops, user_mem_size, user_mem_start,
}
use fuzzy_os.Paging.{flush_tlb, map_virtual_addr_to_physical, remove_4kb_page, remove_page}
use fuzzy_os.Programs.Pingpong.Frames.{frame}
use fuzzy_os.Syscalls.{sys_close}

-- `KERNEL_DS`, and 0x08048000 as an offset into the 4 MB page of a program
abbrev pub kernel_ds : ℕ
kernel_ds = 0x18

abbrev pub image_offset : ℕ
image_offset = 0x48000

-- `EXCEP_NUM`
abbrev pub excep_num : Word
excep_num = 256

-- The loops that run over spaces.
unfoldable pub skip_spaces : List ℕ → List ℕ
skip_spaces [] = []
skip_spaces (c ∷ s) = let rest = skip_spaces s in if c == 32 then rest else c ∷ s

-- The loop that copies a word: the word, and what stands behind it.
unfoldable pub split_word : List ℕ → List ℕ × List ℕ
split_word [] = ([], [])
split_word (c ∷ s) =
    let (w, rest) = split_word s in if c == 0 || c == 32 then ([], c ∷ s) else (c ∷ w, rest)

-- What the parser leaves in `parsed_args`, in a buffer as long as is needed.
abbrev pub args_of : List ℕ → List ℕ
args_of rest = if get_or rest 0 0 == 0 then [] else text_of (skip_spaces rest)

-- `parsed_command` and `parsed_args`
unfoldable pub parse_command : List ℕ → List ℕ × List ℕ
unfolding skip_spaces split_word text_of
parse_command command =
    ((split_word (skip_spaces command)).0, args_of (split_word (skip_spaces command)).1)

-- `MAX_CMD_CHARS`, the size of both buffers.
abbrev pub max_cmd_chars : ℕ
max_cmd_chars = 128

-- The parser with the bound of its buffers: `none` is a character or a NUL behind one of them.
unfoldable pub parse_in_bounds : List ℕ → Option (List ℕ × List ℕ)
unfolding parse_command
parse_in_bounds command =
    if ltb (length (parse_command command).0) max_cmd_chars
      && ltb (length (parse_command command).1) max_cmd_chars
    then some (parse_command command)
    else none

-- The text that is printed when six processes run.
abbrev pub max_processes_message : List ℕ
max_processes_message =
    10 ∷ 77 ∷ 97 ∷ 120 ∷ 32 ∷ 112 ∷ 114 ∷ 111 ∷ 99 ∷ 101 ∷ 115 ∷ 115 ∷ 101 ∷ 115 ∷ 32 ∷ 114 ∷ 101
    ∷ 97 ∷ 99 ∷ 104 ∷ 101 ∷ 100 ∷ 46 ∷ 32 ∷ 84 ∷ 121 ∷ 112 ∷ 101 ∷ 32 ∷ 101 ∷ 120 ∷ 105 ∷ 116 ∷ 44
    ∷ 32 ∷ 105 ∷ 100 ∷ 105 ∷ 111 ∷ 116 ∷ 44 ∷ 32 ∷ 105 ∷ 102 ∷ 32 ∷ 110 ∷ 111 ∷ 116 ∷ 32 ∷ 116 ∷ 104
    ∷ 101 ∷ 110 ∷ 32 ∷ 104 ∷ 97 ∷ 118 ∷ 101 ∷ 32 ∷ 102 ∷ 117 ∷ 110 ∷ 32 ∷ 100 ∷ 105 ∷ 100 ∷ 100
    ∷ 108 ∷ 105 ∷ 110 ∷ 103 ∷ 32 ∷ 121 ∷ 111 ∷ 117 ∷ 114 ∷ 32 ∷ 98 ∷ 105 ∷ 116 ∷ 115 ∷ 10 ∷ []

-- How the calls end: they return a value; the program at an entry point runs in user mode; or the
-- parent goes on at `execute_return`, with a status, on its kernel stack.
pub data Outcome : Type 0 where
  returned : Word → Kernel → Outcome
  started : Word → Kernel → Outcome
  resumed : Word → Word → Word → Kernel → Outcome

-- The kernel in which a call ends.
abbrev pub final : Outcome → Kernel
final (returned v k) = k
final (started entry k) = k
final (resumed status esp ebp k) = k

-- `pid++` and `terminal_process_num[cur_execute_terminal]++`, and the same with `--`
unfoldable pub count_up : Kernel → Kernel
count_up k = record k {
  pid = add32 k.pid 1;
  process_num = update k.process_num (current k) (add32 (current_num k) 1);
}

unfoldable pub count_down : Kernel → Kernel
count_down k = record k {
  pid = sub32 k.pid 1;
  process_num = update k.process_num (current k) (sub32 (current_num k) 1);
}

-- printf of a text with no format in it
abbrev pub print_text : List ℕ → Kernel → Kernel
print_text s k = record k { keys = record (k.keys) { con = puts s k.keys.con } }

-- The buffer that a read_data whose result is not looked at leaves.
abbrev pub left_in : Memory → Option Memory → Memory
left_in buf none = buf
left_in buf (some buf') = buf'

abbrev pub read_into : Memory → ℕ → ℕ → Memory → ℕ → Memory
read_into img inode offset buf n = left_in buf (read_data img inode offset (some buf) n).1

-- The four magic bytes.
abbrev pub is_executable : Memory → Bool
is_executable buf = buf 0 == 0x7F && buf 1 == 0x45 && buf 2 == 0x4C && buf 3 == 0x46

-- the frame of the running process
abbrev pub current_frame : Kernel → Word
current_frame k = frame_address (current k) (current_num k)

-- The part of a frame from `image_offset` on, and the frame with that part written. A frame has
-- `user_mem_size` bytes: what a longer file has behind them is written to the pages behind the
-- user's, and is not in the frame.
abbrev pub image_part : Memory → Memory
image_part frame x = frame (image_offset + x)

abbrev pub with_image : Memory → Memory → Memory
with_image frame part x =
    if leb image_offset x && ltb x user_mem_size then part (x - image_offset) else frame x

-- Map the page of the new process and read the whole file to 0x08048000, which the page now backs.
unfoldable pub load_program : ℕ → Kernel → Kernel
load_program inode k = record k {
  paging = map_virtual_addr_to_physical user_mem_start (current_frame k) k.paging;
  frames = update k.frames (current_frame k) (
      with_image (k.frames (current_frame k)) (
        read_into k.image inode 0 (image_part (k.frames (current_frame k)))
          (inode_length k.image inode)));
}

-- The terminal's descriptor, as execute sets 0 and 1.
abbrev pub terminal_entry : FdaEntry
terminal_entry = record { fops = terminal_fops; inode = 0; file_position = 0; flags = 1 }

-- The process control block and the TSS; `esp` and `ebp` are the registers that the parent keeps.
unfoldable pub create_pcb : List ℕ → Word → Word → Kernel → Kernel
create_pcb args esp ebp k = record k {
  pcbs = update k.pcbs (current_address k) (record (get_pcb k) {
    fda = update (update (get_pcb k).fda 0 terminal_entry) 1 terminal_entry;
    params = args;
    pid = k.pid;
    parent_pid = sub32 k.pid 1;
    parent_esp = esp;
    parent_ebp = ebp;
  });
  ss0 = kernel_ds;
  esp0 = stack_top (current k) (current_num k);
}

-- What a call finds on its stack: the name buffer of read_dentry_by_name, `dentry`, `buf` and
-- `eip_bytes`, and the registers that it saves.
pub record Frame : Type 0 where
  pub stack : Memory
  pub junk : Dentry
  pub buf : Memory
  pub eip_bytes : Memory
  pub esp : Word
  pub ebp : Word

-- `entry_point_ip`
abbrev pub entry_point : Frame → Memory → ℕ → Word
entry_point f img inode = load32 (read_into img inode 24 f.eip_bytes 4) 0

-- execute, behind the count and the parser
unfoldable pub execute_file : Frame → List ℕ → List ℕ → Kernel → Outcome
unfolding count_down load_program create_pcb
execute_file f command args k = elim (look_up f.stack f.junk k (some command)).1 [
  | none ↦ returned minus_one (count_down k)
  | some file ↦
      if not ((look_up f.stack f.junk k (some command)).0 == 0)
      then returned minus_one (count_down k)
      else if not (is_executable (read_into k.image file.inode_num 0 f.buf 4))
      then returned minus_one (count_down k)
      else started (entry_point f k.image file.inode_num)
          (create_pcb args f.esp f.ebp (load_program file.inode_num k))
]

-- execute; `none` is NULL.
unfoldable pub execute : Frame → Option (List ℕ) → Kernel → Outcome
unfolding count_up execute_file parse_command
execute f none k = returned minus_one k
execute f (some command) k =
    if slt max_pid (add32 k.pid 1)
    then returned 0 (print_text max_processes_message k)
    else execute_file f (parse_command command).0 (parse_command command).1 (count_up k)

-- "shell"
abbrev pub shell : List ℕ
shell = 115 ∷ 104 ∷ 101 ∷ 108 ∷ 108 ∷ []

-- The descriptor `i` of the block at `address`, freed.
abbrev pub free_entry : Word → ℕ → Kernel → Kernel
free_entry address i k = record k {
  pcbs =
      update k.pcbs address
        (record (k.pcbs address) { fda = update (k.pcbs address).fda i closed_entry });
}

-- The loop of halt, from `i` on with `n` rounds left, over the block at `address`.
unfoldable pub tear_down : Word → ℕ → ℕ → Kernel → Kernel
tear_down address zero i k = k
tear_down address (suc n) i k = tear_down address n (i + 1) (free_entry address i (sys_close i k).1)

-- The mappings and the TSS, set back to those of the parent, when the counts are already its own.
unfoldable pub restore_parent : Word → Kernel → Kernel
restore_parent table k = record k {
  paging = map_virtual_addr_to_physical user_mem_start (current_frame k) (
      flush_tlb (
        remove_4kb_page table (user_mem_start + user_mem_size)
          (remove_page user_mem_start k.paging)));
  ss0 = kernel_ds;
  esp0 = stack_top (current k) (current_num k);
}

abbrev pub reset_pcb : Word → Kernel → Kernel
reset_pcb address k = record k {
  pcbs = update k.pcbs address (record (k.pcbs address) {
    pid = minus_one;
    parent_pid = minus_one;
    parent_esp = 0;
    parent_ebp = 0;
  });
}

-- halt, of a process that is not the first of its terminal
unfoldable pub halt_child : Word → Word → Kernel → Outcome
unfolding count_down tear_down restore_parent
halt_child table status k =
    let address : Word = current_address k in
    let torn : Kernel =
      tear_down address 6 fda_min_index (count_down (record k { exception_flag = 0 })) in
    resumed (if k.exception_flag == 0 then status else excep_num) (torn.pcbs address).parent_esp
      (torn.pcbs address).parent_ebp (reset_pcb address (restore_parent table torn))

-- What a call that starts a program, or else returns, gives to a caller that returns 0.
abbrev pub then_return : Outcome → Outcome
then_return (returned v k) = returned 0 k
then_return (started entry k) = started entry k
then_return (resumed status esp ebp k) = resumed status esp ebp k

-- halt, whose `status` is a byte; the first process of a terminal is replaced by a new shell.
unfoldable pub halt : Frame → Word → Word → Kernel → Outcome
unfolding execute halt_child count_down
halt f table status k =
    if current_num k == 0
    then then_return (execute f (some shell) (count_down k))
    else halt_child table status k
