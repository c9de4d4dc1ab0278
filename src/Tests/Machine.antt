-- ===== src/Tests/Machine.antt =====
-- The states that the tests run on: a disk image with one program, three terminals, and a kernel in
-- which three shells run.
use fuzzy_os.Base.{
  List, Memory, Ports, [], ap, arith, bytes, false, if◌then◌else◌, ltb, refl, some, suc, zero, ℕ,
  ◌%◌, ◌<◌, ◌==◌, ◌^◌, ◌∙◌, ◌∷◌, ◌≡◌,
}
use fuzzy_os.Clib.Compare.{IsBytes}
use fuzzy_os.Clib.Strings.{pad_from, strlen, strncmp, strncmp_from, strncpy, strncpy_from, text_of}
use fuzzy_os.Console.{Console, Terminal}
use fuzzy_os.Display.{Keyboard}
use fuzzy_os.FileSystem.{
  Dentry, data_block, data_byte, fill_dentry, find_dentry, find_name, inode_length, name_buffer,
  read_dentry_by_name,
}
use fuzzy_os.Files.{get_file_len, look_up, open_entry}
use fuzzy_os.Kernel.{Kernel, Pcb, closed_entry, file_fops, pcb_address, set_entry}
use fuzzy_os.Paging.{Paging}
use fuzzy_os.Process.{Frame, parse_command, skip_spaces, split_word, terminal_entry}
use fuzzy_os.Process.Starting.{IsProgram}
use fuzzy_os.Rtc.{Rtc}
use fuzzy_os.Syscalls.{Wait}

-- One entry, "a", of type 2 in inode 0; 28 bytes in data block 0, with the entry point 0x08048010.
abbrev pub disk : Memory
disk i =
    if i == 0
    then 1
    else if i == 4
    then 1
    else if i == 64
    then 97
    else if i == 96
    then 2
    else if i == 4096
    then 28
    else if i == 8192
    then 0x7F
    else if i == 8193
    then 0x45
    else if i == 8194
    then 0x4C
    else if i == 8195
    then 0x46
    else if i == 8216
    then 0x10
    else if i == 8217
    then 0x80
    else if i == 8218
    then 0x04
    else if i == 8219
    then 0x08
    else 0

abbrev pub blank : Memory
blank i = 0

abbrev pub text_a : List ℕ
text_a = 97 ∷ []

abbrev pub no_file : Dentry
no_file = record { file_name = blank; file_type = 0; inode_num = 0 }

abbrev pub file_a : Dentry
file_a = fill_dentry disk (name_buffer blank text_a) 0 no_file

abbrev pub terminal0 : Terminal
terminal0 = record {
  screen_x = 7;
  screen_y = 24;
  save_y = 24;
  caps_flag = 0;
  enter_flag = 0;
  keyboard_buf = blank;
  buffer_loc = 0;
}

abbrev pub console0 : Console
console0 = record {
  video = λ i. i % 7;
  terminals = λ t. terminal0;
  display = 0;
  execute = 0;
  video_mem = 0xB8000;
  ports = [];
}

abbrev pub keyboard0 : Keyboard
keyboard0 = record {
  con = console0;
  shift_flag = 0;
  caps_flag = 0;
  control_flag = 0;
  alt_flag = 0;
  keyboard_buf = blank;
  before_buf = 0;
  attrib = 7;
}

abbrev pub paging0 : Paging
paging0 = record { page_directory = λ i. 0; video_page_table = λ i. 0; stale = false }

abbrev pub rtc0 : Rtc
rtc0 = record {
  interrupt_flag = 0;
  terminal_rtc = λ t. 0;
  counter = λ t. 0;
  initialized = 1;
  ports = [];
}

abbrev pub pcb0 : Pcb
pcb0 = record {
  fda = λ j. if ltb j 2 then terminal_entry else closed_entry;
  pid = 0;
  parent_pid = 0;
  parent_esp = 0x7FD000;
  parent_ebp = 0x7FD010;
  params = [];
}

abbrev pub kernel0 : Kernel
kernel0 = record {
  keys = keyboard0;
  paging = paging0;
  rtc = rtc0;
  image = disk;
  pcbs = λ a. pcb0;
  frames = λ a. blank;
  pid = 2;
  process_num = λ t. 0;
  exception_flag = 0;
  esp0 = 0;
  ss0 = 0x18;
}

-- the same with one process more, on terminal 0
abbrev pub kernel1 : Kernel
kernel1 = record kernel0 { pid = 3; process_num = λ t. if t == 0 then 1 else 0 }

abbrev pub call0 : Frame
call0 = record {
  stack = blank;
  junk = no_file;
  buf = blank;
  eip_bytes = blank;
  esp = 0x7FD000;
  ebp = 0x7FD010;
}

pub disk-IsBytes : IsBytes disk
disk-IsBytes i = ground arith

pub disk-IsProgram : IsProgram disk 0
unfolding inode_length data_block data_byte
disk-IsProgram = record {
  inode_low = omega arith;
  stored = (omega arith, λ b p l. absurd (omega arith));
  header = omega arith;
  magic = refl;
}

pub found_a : look_up blank no_file kernel0 (some text_a) ≡ (0, some file_a)
unfolding read_dentry_by_name find_dentry find_name strlen strncmp strncmp_from name_buffer strncpy
    strncpy_from pad_from
found_a = refl

pub command_a : parse_command text_a ≡ (text_a, [])
unfolding parse_command skip_spaces split_word text_of
command_a = refl

pub found_command_a :
    look_up call0.stack call0.junk kernel0 (some (parse_command text_a).0) ≡ (0, some file_a)
found_command_a = ap (λ c. look_up call0.stack call0.junk kernel0 (some c.0)) command_a ∙ found_a

pub bytes_a : IsBytes (bytes text_a)
bytes_a zero = ground arith
bytes_a (suc i) = ground arith

pub type_a : file_a.file_type ≡ 2
unfolding fill_dentry
type_a = refl

-- What `inb` gives where nothing is read.
abbrev pub no_ports : Ports → ℕ → ℕ
no_ports l p = 0

abbrev pub wait0 : Wait
wait0 = record { ticks = 0; woken = keyboard0 }

-- the kernel with the file open at byte 10, as descriptor 2
abbrev pub kernel_open : Kernel
kernel_open = set_entry 2 (open_entry file_fops 0 10) kernel0

pub short_file : get_file_len kernel_open 2 < 2 ^ 31
unfolding get_file_len inode_length pcb_address
short_file = omega arith
