-- ===== src/Files.antt =====
-- The open files, directories and clocks of a process: file_open, file_read and their like of
-- student-distrib/filesys.c, and RTC_open of student-distrib/rtc.c. A call is given what its stack
-- holds before it is written: `stack` for a name buffer and `junk` for a `dentry_t`.
pub mod Reading
use mathlib.Core.Option
use fuzzy_os.Base.{
  List, Memory, Option, Ports, Word, add32, if◌then◌else◌, leb, map, minus_one, none, not, slice,
  slt, some, ℕ, ◌==◌,
}
use fuzzy_os.Clib.Strings.{strlen, strncpy}
use fuzzy_os.FileSystem.{
  Dentry, inode_length, max_file_name_len, num_dentries, read_data, read_dentry_by_index,
  read_dentry_by_name,
}
use fuzzy_os.Kernel.{
  FdaEntry, Fops, Kernel, current, directory_fops, entry, file_fops, rtc_fops, set_entry,
}
use fuzzy_os.Rtc.{Rtc, open_clock}

-- getFileLen, of an open file
unfoldable pub get_file_len : Kernel → ℕ → ℕ
get_file_len k fd = inode_length k.image (entry k fd).inode

-- The descriptor of a file, directory or clock that has just been opened.
abbrev pub open_entry : Fops → Word → Word → FdaEntry
open_entry fops inode position = record {
  fops = fops;
  inode = inode;
  file_position = position;
  flags = 1;
}

-- file_close, file_write, dir_close, dir_write and RTC_close
abbrev pub file_close : Word
file_close = 0

abbrev pub file_write : Word
file_write = minus_one

abbrev pub dir_close : Word
dir_close = 0

abbrev pub dir_write : Word
dir_write = minus_one

abbrev pub rtc_close : Word
rtc_close = 0

-- dir_open
unfoldable pub dir_open : ℕ → Option (List ℕ) → Kernel → Word × Kernel
dir_open fd none k = (minus_one, k)
dir_open fd (some dirname) k = (0, set_entry fd (open_entry directory_fops minus_one 0) k)

-- RTC_open; `none` is the divide error, which the frequency 1024 does not meet.
unfoldable pub rtc_open : (Ports → ℕ → ℕ) → ℕ → Kernel → Option (Word × Kernel)
rtc_open read fd k =
    Option.map {A = Rtc}
      (λ r. (0, set_entry fd (open_entry rtc_fops minus_one minus_one) (record k { rtc = r })))
      (open_clock read (current k) k.rtc)

-- file_read; the comparison of the length is that of `int`.
unfoldable pub file_read : ℕ → Option Memory → Word → Kernel → Word × Option Memory × Kernel
file_read fd none nbytes k = (minus_one, none, k)
file_read fd (some buf) nbytes k =
    if slt nbytes 0
    then (minus_one, some buf, k)
    else (let n : Word = if slt (get_file_len k fd) nbytes then get_file_len k fd else nbytes in
        let r : Word × Option Memory =
          read_data k.image (entry k fd).inode (entry k fd).file_position (some buf) n in
        (
          r.0,
          r.1,
          if r.0 == minus_one
              then k
              else set_entry fd
                  (record (entry k fd) { file_position = add32 (entry k fd).file_position r.0 }) k,
        ))

module _ (stack : Memory) (junk : Dentry) where
  -- what read_dentry_by_name leaves in a local `dentry_t`
  abbrev pub look_up : Kernel → Option (List ℕ) → Word × Option Dentry
  look_up k fname = read_dentry_by_name k.image stack fname (some junk)

  -- file_open
  unfoldable pub file_open : ℕ → Option (List ℕ) → Kernel → Word × Kernel
  file_open fd filename k = elim (look_up k filename).1 [
    | none ↦ (minus_one, k)
    | some file ↦
        if not ((look_up k filename).0 == 0)
        then (minus_one, k)
        else (0, set_entry fd (open_entry file_fops file.inode_num 0) k)
  ]

  -- dir_read. strlen runs on behind a name of 32 bytes, and is cut back to 32: the list that it
  -- walks here ends there. The result of read_dentry_by_index is not looked at, nor is `nbytes`.
  unfoldable pub dir_read : ℕ → Memory → Kernel → Word × Memory × Kernel
  dir_read fd buf k =
      if leb (num_dentries k.image) (entry k fd).file_position
      then (0, buf, k)
      else elim (read_dentry_by_index k.image (entry k fd).file_position (some junk)).1 [
        | none ↦ (0, buf, k)
        | some d ↦
            (let len : ℕ = strlen (slice d.file_name 0 max_file_name_len) in
              (
                len,
                strncpy buf d.file_name len,
                set_entry fd
                    (record (entry k fd) { file_position = add32 (entry k fd).file_position 1 }) k,
              ))
      ]
