-- ===== src/Syscalls.antt =====
-- The file system calls of student-distrib/system_call.c: open, close, read and write, which go
-- through the descriptor's table of functions, and getargs and vidmap. A pointer is an option.
pub mod Descriptors
pub mod Access
use mathlib.Core.Option
use fuzzy_os.Base.{
  List, Memory, Option, Ports, Word, bytes, if◌then◌else◌, load32, ltb, map, minus_one, none, not,
  slt, some, suc, zero, ℕ, ◌+◌, ◌==◌, ◌||◌,
}
use fuzzy_os.Clib.Strings.{strlen, strncpy}
use fuzzy_os.Display.{Keyboard}
use fuzzy_os.FileSystem.{Dentry}
use fuzzy_os.Files.{
  dir_close, dir_open, dir_read, dir_write, file_close, file_open, file_read, file_write, look_up,
  rtc_close, rtc_open,
}
use fuzzy_os.Kernel.{
  FdaEntry, Fops, Kernel, closed_entry, current, directory_fops, entry, fda_max_index,
  fda_min_index, file_fops, get_pcb, no_fops, rtc_fops, set_entry, terminal_fops, user_mem_size,
  user_mem_start,
}
use fuzzy_os.Paging.{map_virtual_addr_to_physical_4kb_page, video}
use fuzzy_os.Rtc.{Rtc, rtc_read, rtc_write}
use fuzzy_os.TerminalDriver.{terminal_close, terminal_read, terminal_write}

-- The loop of open: the first free descriptor from `i` on, with `n` rounds left.
unfoldable pub find_free : (ℕ → FdaEntry) → ℕ → ℕ → Option ℕ
find_free fda zero i = none
find_free fda (suc n) i =
    let rest = find_free fda n (i + 1) in if (fda i).flags == 0 then some i else rest

module _ (stack : Memory) (junk : Dentry) (read : Ports → ℕ → ℕ) where
  -- The three kinds of file; another type opens nothing. `none` is a divide error.
  unfoldable pub open_kind : ℕ → ℕ → Option (List ℕ) → Kernel → Option (Word × Kernel)
  open_kind file_type fd filename k =
      if file_type == 0
      then rtc_open read fd k
      else if file_type == 1
      then some (dir_open fd filename k)
      else if file_type == 2
      then some (file_open stack junk fd filename k)
      else some (0, k)

  -- `if (…_open(fda_index, filename)) return -1; return fda_index;`
  abbrev pub opened : ℕ → Word × Kernel → Word × Kernel
  opened fd (status, k) = (if status == 0 then fd else minus_one, k)

  -- open
  unfoldable pub sys_open : Option (List ℕ) → Kernel → Option (Word × Kernel)
  unfolding open_kind
  sys_open none k = some (minus_one, k)
  sys_open (some filename) k = elim (look_up stack junk k (some filename)).1 [
    | none ↦ some (minus_one, k)
    | some file ↦
        if not ((look_up stack junk k (some filename)).0 == 0)
        then some (minus_one, k)
        else elim (find_free (get_pcb k).fda 6 fda_min_index) [
          | none ↦ some (minus_one, k)
          | some fd ↦ Option.map (opened fd) (open_kind file.file_type fd (some filename) k)
        ]
  ]

-- the second function of the table: terminal_close clears the screen.
unfoldable pub close_kind : Fops → Kernel → Word × Kernel
close_kind no_fops k = (0, k)
close_kind file_fops k = (file_close, k)
close_kind directory_fops k = (dir_close, k)
close_kind rtc_fops k = (rtc_close, k)
close_kind terminal_fops k =
    let (status, c) = terminal_close k.keys.con in
    (status, record k { keys = record (k.keys) { con = c } })

-- close; the descriptor is freed before the function of its table is called.
unfoldable pub sys_close : Word → Kernel → Word × Kernel
unfolding close_kind
sys_close fd k =
    if slt fd fda_min_index || slt fda_max_index fd
    then (minus_one, k)
    else if (entry k fd).flags == 0
    then (minus_one, k)
    else close_kind (entry k fd).fops (set_entry fd closed_entry k)

-- What a read waits for: the clock interrupts that arrive, or the state of the keyboard in which a
-- line is finished and its terminal on display.
pub record Wait : Type 0 where
  pub ticks : ℕ
  pub woken : Keyboard

module _ (stack : Memory) (junk : Dentry) where
  -- the third function of the table; `none` is a read that does not come back.
  unfoldable pub read_kind :
      Wait → Fops → ℕ → Memory → Word → Kernel → Option (Word × Option Memory × Kernel)
  read_kind w no_fops fd buf nbytes k = none
  read_kind w file_fops fd buf nbytes k = some (file_read fd (some buf) nbytes k)
  read_kind w directory_fops fd buf nbytes k =
      let (n, buf', k') = dir_read stack junk fd buf k in some (n, some buf', k')
  read_kind w rtc_fops fd buf nbytes k =
      Option.map {A = ℕ × Rtc} (λ r. (0, some buf, record k { rtc = r.1 }))
        (rtc_read (current k) w.ticks k.rtc)
  read_kind w terminal_fops fd buf nbytes k =
      if slt nbytes 1
      then some (0, some buf, k)
      else Option.map {A = Word × Option Memory × Keyboard}
          (λ r. (r.0, r.1, record k { keys = r.2 }))
          (terminal_read k.keys.con.display (some buf) nbytes w.woken)

  -- read
  unfoldable pub sys_read :
      Wait → Word → Option Memory → Word → Kernel → Option (Word × Option Memory × Kernel)
  unfolding read_kind
  sys_read w fd none nbytes k = some (minus_one, none, k)
  sys_read w fd (some buf) nbytes k =
      if slt fd 0 || slt fda_max_index fd || fd == 1
      then some (minus_one, some buf, k)
      else if (entry k fd).flags == 0
      then some (minus_one, some buf, k)
      else read_kind w (entry k fd).fops fd buf nbytes k

-- The first word of a buffer, as change_rtc_freq reads it.
abbrev pub first_word : Memory → Word
first_word buf = load32 buf 0

module _ (read : Ports → ℕ → ℕ) where
  -- the fourth function of the table; `none` is a divide error, or a call through no table.
  unfoldable pub write_kind : Fops → Memory → Word → Kernel → Option (Word × Kernel)
  write_kind no_fops buf nbytes k = none
  write_kind file_fops buf nbytes k = some (file_write, k)
  write_kind directory_fops buf nbytes k = some (dir_write, k)
  write_kind rtc_fops buf nbytes k =
      Option.map {A = Word × Rtc} (λ r. (r.0, record k { rtc = r.1 }))
        (rtc_write read (current k) (some (first_word buf)) nbytes k.rtc)
  write_kind terminal_fops buf nbytes k =
      let (n, c) = terminal_write (some buf) nbytes k.keys.con in
      some (n, record k { keys = record (k.keys) { con = c } })

  -- write
  unfoldable pub sys_write : Word → Option Memory → Word → Kernel → Option (Word × Kernel)
  unfolding write_kind
  sys_write fd none nbytes k = some (minus_one, k)
  sys_write fd (some buf) nbytes k =
      if slt fd 1 || slt fda_max_index fd
      then some (minus_one, k)
      else if (entry k fd).flags == 0
      then some (minus_one, k)
      else write_kind (entry k fd).fops buf nbytes k

-- getargs; `strlen(…) > nbytes` compares as unsigned.
unfoldable pub getargs : Option Memory → Word → Kernel → Word × Option Memory
getargs none nbytes k = (minus_one, none)
getargs (some buf) nbytes k =
    if strlen (get_pcb k).params == 0 || ltb nbytes (strlen (get_pcb k).params)
    then (minus_one, some buf)
    else (0, some (strncpy buf (bytes (get_pcb k).params) nbytes))

-- vidmap: the value written through `screen_start`, if one is
unfoldable pub vidmap : Word → Word → Kernel → Word × Option Word × Kernel
vidmap table screen_start k =
    if slt screen_start user_mem_start || slt (user_mem_start + user_mem_size) screen_start
    then (minus_one, none, k)
    else (
      user_mem_start + user_mem_size,
      some (user_mem_start + user_mem_size),
      record k {
        paging =
            map_virtual_addr_to_physical_4kb_page table (user_mem_start + user_mem_size) video
              k.paging;
      },
    )

-- set_handler and sigreturn
abbrev pub set_handler : Word
set_handler = 0

abbrev pub sigreturn : Word
sigreturn = 0
