-- ===== src/Tests/Programs.antt =====
-- The programs in syscalls, on the kernel of the other tests.
use mathlib.Core.Path.{subst}
use fuzzy_os.Base.{
  ==_iff, List, Memory, [], arith, bytes, every_below, every_below_sound, get_or, if◌then◌else◌,
  inl, minus_one, refl, slice, some, sym, true, update, ℕ, ◌++◌, ◌+◌, ◌<◌, ◌==◌, ◌∷◌, ◌≡◌,
}
use fuzzy_os.Clib.Strings.{itoa, pad_from, strlen, strncmp, strncmp_from, strncpy, strncpy_from}
use fuzzy_os.FileSystem.{
  Dentry, data_block, data_byte, fill_dentry, find_dentry, find_name, inode_length, name_buffer,
  read_dentry_by_name,
}
use fuzzy_os.FileSystem.Start.{file_byte}
use fuzzy_os.Files.{look_up, open_entry}
use fuzzy_os.Kernel.{Kernel, file_fops, pcb_address, set_entry}
use fuzzy_os.Programs.Calls.{Calls, kernel_calls}
use fuzzy_os.Programs.Cat.{cat_loop, cat_main}
use fuzzy_os.Programs.Cat.Files.{FileLeft, KernelWrites}
use fuzzy_os.Programs.Cat.Kernel.{file-IsStream}
use fuzzy_os.Programs.Cat.Running.{CanOpen, HasBytes, argument, cat_main-file}
use fuzzy_os.Programs.Cat.Streams.{cat_loop-Shown}
use fuzzy_os.Programs.Grep.{lines_loop}
use fuzzy_os.Programs.Grep.Rounds.{HoldsLine, lines_loop-HoldsLine}
use fuzzy_os.Programs.Pingpong.{pingpong_main, rtc_name}
use fuzzy_os.Programs.Pingpong.Frames.{IsWorld, rounds}
use fuzzy_os.Programs.Pingpong.Kernel.{pingpong_main-rounds}
use fuzzy_os.Programs.Strings.{ece391_itoa-itoa}
use fuzzy_os.Programs.Support.{ece391_itoa, ece391_itoa_loop, ece391_strlen, fdputs}
use fuzzy_os.Programs.Syserr.{all_tests}
use fuzzy_os.Programs.Syserr.Passing.{Ready}
use fuzzy_os.Programs.Syserr.Texts.{dot, helloo, shel}
use fuzzy_os.Programs.Syserr.Together.{Says, all_tests-Says, passed}
use fuzzy_os.Syscalls.{Wait}
use fuzzy_os.Tests.Machine.{blank, disk, kernel0, no_file, no_ports, pcb0, wait0}

ece391_itoa-itoa_example :
    (ece391_itoa 48879 blank 16 2 ≡ itoa 48879 blank 16 2)
    × ((f : ℕ) → ece391_itoa_loop (32 + f) 48879 16 blank 0 ≡ ece391_itoa_loop 32 48879 16 blank 0)
ece391_itoa-itoa_example =
    ece391_itoa-itoa 48879 16 blank 2 (omega arith) (omega arith) (omega arith)

-- The file of the disk, open at its start as descriptor 2.
abbrev kernel_start : Kernel
kernel_start = set_entry 2 (open_entry file_fops 0 0) kernel0

abbrev program_bytes : List ℕ
program_bytes =
    0x7F ∷ 0x45 ∷ 0x4C ∷ 0x46 ∷ 0 ∷ 0 ∷ 0 ∷ 0 ∷ 0 ∷ 0 ∷ 0 ∷ 0 ∷ 0 ∷ 0 ∷ 0 ∷ 0 ∷ 0 ∷ 0 ∷ 0 ∷ 0 ∷ 0
    ∷ 0 ∷ 0 ∷ 0 ∷ 0x10 ∷ 0x80 ∷ 0x04 ∷ 0x08 ∷ []

program_table : every_below 28 (λ i. file_byte disk 0 i == get_or program_bytes i 0) ≡ true
unfolding every_below data_byte data_block
program_table = refl

program_same_at : (i : ℕ) → i < 28 → file_byte disk 0 i ≡ get_or program_bytes i 0
program_same_at i l =
    (==_iff _ _).0
      (every_below_sound 28 (λ i. file_byte disk 0 i == get_or program_bytes i 0) i program_table l)

program_same : (i : ℕ) → i < 28 → file_byte disk 0 (0 + i) ≡ get_or program_bytes i 0
program_same i l = let z : 0 + i ≡ i = omega arith in rw z (program_same_at i l)

kernel_start-FileLeft : FileLeft 2 program_bytes kernel_start
unfolding pcb_address inode_length
kernel_start-FileLeft = record {
  table = refl;
  used = omega arith;
  inode_low = omega arith;
  short = omega arith;
  rest = refl;
  aligned = λ h. refl;
  same = program_same;
  screen = refl;
  screen_used = omega arith;
}

abbrev calls0 : Calls Kernel
calls0 = kernel_calls blank no_file no_ports 0x5000 (λ k. wait0) (λ n k. some (minus_one, k))

cat_loop-Shown_example :
    (k' : Kernel) × (cat_loop calls0 100 2 blank kernel_start ≡ some (0, k'))
    × KernelWrites program_bytes kernel_start k'
cat_loop-Shown_example =
    cat_loop-Shown calls0 2 (FileLeft 2) KernelWrites
      (file-IsStream blank no_file no_ports 0x5000 (λ k. wait0) (λ n k. some (minus_one, k)) 2
        (omega arith) (omega arith))
      100 program_bytes blank kernel_start kernel_start-FileLeft (omega arith)

-- An image with the directory "." only.
abbrev dot_disk : Memory
dot_disk i =
    if i == 0 then 1 else if i == 4 then 1 else if i == 64 then 46 else if i == 96 then 1 else 0

abbrev dot_kernel : Kernel
dot_kernel = record kernel0 { image = dot_disk }

abbrev dot_file : Dentry
dot_file = fill_dentry dot_disk (name_buffer blank dot) 0 no_file

found_dot_file : read_dentry_by_name dot_disk blank (some dot) (some no_file) ≡ (0, some dot_file)
unfolding read_dentry_by_name find_dentry find_name strlen strncmp strncmp_from name_buffer strncpy
    strncpy_from pad_from
found_dot_file = refl

dot_type : dot_file.file_type ≡ 1
unfolding fill_dentry
dot_type = refl

no_helloo_file : (read_dentry_by_name dot_disk blank (some helloo) (some no_file)).0 ≡ minus_one
unfolding read_dentry_by_name find_dentry find_name strlen strncmp strncmp_from name_buffer strncpy
    strncpy_from pad_from
no_helloo_file = refl

no_shel_file : (read_dentry_by_name dot_disk blank (some shel) (some no_file)).0 ≡ minus_one
unfolding read_dentry_by_name find_dentry find_name strlen strncmp strncmp_from name_buffer strncpy
    strncpy_from pad_from
no_shel_file = refl

no_empty_file : (read_dentry_by_name dot_disk blank (some []) (some no_file)).0 ≡ minus_one
unfolding read_dentry_by_name find_dentry find_name strlen strncmp strncmp_from name_buffer strncpy
    strncpy_from pad_from
no_empty_file = refl

dot_kernel-Ready : Ready dot_kernel
dot_kernel-Ready = record {
  screen = refl;
  screen_used = omega arith;
  free = λ j lo hi. ground arith;
}

all_tests-Says_example :
    (k' : Kernel) × (all_tests calls0 blank dot_kernel ≡ some (0, k')) × Says passed dot_kernel k'
all_tests-Says_example =
    all_tests-Says blank no_file no_ports 0x5000 (λ k. wait0) (λ n k. some (minus_one, k)) blank
      dot_kernel dot_file dot_kernel-Ready dot_type found_dot_file
      (λ z. omega (arith, no_helloo_file, z)) (λ z. omega (arith, no_shel_file, z))
      (λ z. omega (arith, no_empty_file, z)) (λ n k e. refl)

-- A machine whose state is what has been written, and whose clock ticks at once.
abbrev log_calls : Calls (List ℕ)
log_calls = record {
  getargs_call = λ buf n s. some (0, buf, s);
  open_call = λ name s. some (2, s);
  close_call = λ fd s. some (0, s);
  read_call = λ fd buf n s. some (0, buf, s);
  write_call = λ fd buf n s. some (n, if fd == 1 then s ++ slice buf 0 n else s);
  vidmap_call = λ p s. some (0, s);
  numbered_call = λ n s. some (minus_one, s);
}

-- The line "shell".
abbrev shell_line : List ℕ
shell_line = 115 ∷ 104 ∷ 101 ∷ 108 ∷ 108 ∷ []

-- A process of cat with the argument "a", and the file of that name.
abbrev cat_kernel : Kernel
cat_kernel = record kernel0 { pcbs = λ x. record pcb0 { params = 97 ∷ [] } }

abbrev file_of_a : Dentry
file_of_a = fill_dentry disk (name_buffer blank (argument blank cat_kernel)) 0 no_file

found_argument :
    look_up blank no_file cat_kernel (some (argument blank cat_kernel)) ≡ (0, some file_of_a)
unfolding read_dentry_by_name find_dentry find_name strlen strncmp strncmp_from name_buffer strncpy
    strncpy_from pad_from
found_argument = refl

type_of_a : file_of_a.file_type ≡ 2
unfolding fill_dentry
type_of_a = refl

inode_of_a : file_of_a.inode_num ≡ 0
unfolding fill_dentry
inode_of_a = refl

disk-HasBytes : HasBytes disk 0 program_bytes
unfolding inode_length
disk-HasBytes = record {
  inode_low = omega arith;
  short = omega arith;
  whole = refl;
  same = program_same_at;
}

cat_kernel-CanOpen : CanOpen cat_kernel
cat_kernel-CanOpen = record {
  screen = refl;
  screen_used = omega arith;
  free = (2, omega arith, omega arith, refl);
}

cat_main-file_example :
    (k' : Kernel) × (cat_main calls0 29 blank cat_kernel ≡ some (0, k'))
    × KernelWrites program_bytes cat_kernel k'
unfolding strlen
cat_main-file_example =
    cat_main-file blank no_file no_ports 0x5000 (λ k. wait0) (λ n k. some (minus_one, k)) 29
      program_bytes blank cat_kernel file_of_a (omega arith) (omega arith) found_argument type_of_a
      (subst (λ n. HasBytes disk n program_bytes) (sym inode_of_a) disk-HasBytes) cat_kernel-CanOpen
      (omega arith)

-- The lines "hi" and "shell" in the buffer.
abbrev two_lines : Memory
two_lines = bytes (104 ∷ 105 ∷ 10 ∷ shell_line)

hi-HoldsLine : HoldsLine two_lines 0 (104 ∷ 105 ∷ [])
hi-HoldsLine = record { chars = λ i b. ground arith; no_newline = λ i b. ground arith }

lines_loop-HoldsLine_example :
    lines_loop log_calls 2 (104 ∷ 105 ∷ []) (102 ∷ []) 8 two_lines 8 0 []
    ≡ lines_loop log_calls 1
        (104 ∷ 105 ∷ [])
        (102 ∷ [])
        8
        (update two_lines 2 0)
        8
        3
        (102 ∷ 58 ∷ 104 ∷ 105 ∷ 10 ∷ [])
unfolding fdputs ece391_strlen
lines_loop-HoldsLine_example =
    lines_loop-HoldsLine log_calls 1 104 (105 ∷ []) (104 ∷ 105 ∷ []) (102 ∷ []) 8 two_lines 8 0 []
      (omega arith, (omega arith, tt)) (omega arith, (omega arith, tt))
      (omega arith, (omega arith, tt)) (omega arith) (omega arith) hi-HoldsLine (inl refl)

-- An image with the clock under the name "rtc", and a process that has it free.
abbrev rtc_disk : Memory
rtc_disk i =
    if i == 0
    then 1
    else if i == 64
    then 114
    else if i == 65
    then 116
    else if i == 66
    then 99
    else 0

abbrev rtc_kernel : Kernel
rtc_kernel = record kernel0 { image = rtc_disk }

abbrev rtc_file : Dentry
rtc_file = fill_dentry rtc_disk (name_buffer blank rtc_name) 0 no_file

found_rtc : look_up blank no_file rtc_kernel (some rtc_name) ≡ (0, some rtc_file)
unfolding read_dentry_by_name find_dentry find_name strlen strncmp strncmp_from name_buffer strncpy
    strncpy_from pad_from
found_rtc = refl

rtc_type : rtc_file.file_type ≡ 0
unfolding fill_dentry
rtc_type = refl

rtc_kernel-CanOpen : CanOpen rtc_kernel
rtc_kernel-CanOpen = record {
  screen = refl;
  screen_used = omega arith;
  free = (2, omega arith, omega arith, refl);
}

abbrev ticking : Kernel → Wait
ticking k = record wait0 { ticks = 512 }

pingpong_main-rounds_example :
    (buf' : Memory) × (garbage' : Memory) × (k' : Kernel) × (pingpong_main
        (kernel_calls blank no_file no_ports 0x5000 ticking (λ n k. some (minus_one, k)))
        27
        blank
        blank
        rtc_kernel
      ≡ some (66, buf', garbage', k'))
    × IsWorld buf'
    × KernelWrites (rounds 27 0) rtc_kernel k'
pingpong_main-rounds_example =
    pingpong_main-rounds blank no_file no_ports 0x5000 ticking (λ n k. some (minus_one, k))
      (λ k. omega arith) 27 blank blank rtc_kernel rtc_file found_rtc rtc_type rtc_kernel-CanOpen
