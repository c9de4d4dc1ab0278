-- ===== src/Tests/Disk.antt =====
-- The file system (student-distrib/filesys.c) and the calls on files on the disk of Machine.
use fuzzy_os.Base.{
  Memory, arith, if◌then◌else◌, inr, ltb, min, minus_one, refl, some, ℕ, ◌+◌, ◌<◌, ◌==◌, ◌≡◌, ◌≢◌,
  ◌≤◌, ◌⊎◌,
}
use fuzzy_os.Clib.Strings.{strlen}
use fuzzy_os.FileSystem.{data_block, inode_length, read_data, read_dentry_by_name}
use fuzzy_os.FileSystem.Across.{read_data_overreads}
use fuzzy_os.FileSystem.Lookup.{Fills, HasName, read_dentry_by_name_lem}
use fuzzy_os.FileSystem.Start.{file_byte, read_data_from_start}
use fuzzy_os.Kernel.{entry, set_entry}
use fuzzy_os.Syscalls.{sys_close, sys_open}
use fuzzy_os.Syscalls.Access.{descriptors_refused}
use fuzzy_os.Syscalls.Descriptors.{opened_as, sys_open_lem}
use fuzzy_os.Tests.Machine.{
  blank, bytes_a, disk, disk-IsBytes, disk-IsProgram, file_a, found_a, kernel0, no_file, no_ports,
  text_a, type_a, wait0,
}

read_data_from_start_example :
    (buf' : Memory) × (read_data disk 0 0 (some blank) 100
      ≡ (min 100 (inode_length disk 0), some buf'))
    × ((x : ℕ)
        → buf' x ≡ (if ltb x (min 100 (inode_length disk 0)) then file_byte disk 0 x else blank x))
read_data_from_start_example =
    read_data_from_start disk 0 blank 100 disk-IsProgram.inode_low disk-IsProgram.stored

-- A file of 5000 bytes, in data blocks 0 and 1.
abbrev two_blocks : Memory
two_blocks i =
    if i == 4
    then 1
    else if i == 4096
    then 136
    else if i == 4097
    then 19
    else if i == 4104
    then 1
    else 0

two_blocks_shape :
    (4096 < inode_length two_blocks 0)
    × (inode_length two_blocks 0 ≤ 4096 + 1000)
    × (data_block two_blocks 0 1 ≢ 0)
    × (inode_length two_blocks 0 ≤ 5000)
unfolding inode_length data_block
two_blocks_shape = (omega arith, omega arith, omega arith, omega arith)

read_data_overreads_example :
    inode_length two_blocks 0 < 1000 + (read_data two_blocks 0 1000 (some blank) 5000).0
read_data_overreads_example =
    read_data_overreads two_blocks 0 1000 (omega arith) (omega arith) two_blocks_shape.0
      two_blocks_shape.1 two_blocks_shape.2 blank 5000 (omega arith) two_blocks_shape.3

text_a-strlen : (0 < strlen text_a) × (strlen text_a ≤ 32)
unfolding strlen
text_a-strlen = (omega arith, omega arith)

read_dentry_by_name_example :
    (((j : ℕ) → j < 64 → ¬ HasName disk text_a j)
      × (read_dentry_by_name disk blank (some text_a) (some no_file) ≡ (minus_one, some no_file)))
    ⊎ ((i : ℕ) × (i < 64)
        × HasName disk text_a i
        × ((l : ℕ) → l < i → ¬ HasName disk text_a l)
        × ((read_dentry_by_name disk blank (some text_a) (some no_file)).0 ≡ 0)
        × Fills disk blank text_a disk-IsBytes bytes_a i
            (read_dentry_by_name disk blank (some text_a) (some no_file)).1)
read_dentry_by_name_example =
    read_dentry_by_name_lem disk blank text_a disk-IsBytes bytes_a no_file text_a-strlen.0
      text_a-strlen.1

sys_open_example :
    (((j : ℕ) → 2 ≤ j → j < 8 → (entry kernel0 j).flags ≢ 0)
      × (sys_open blank no_file no_ports (some text_a) kernel0 ≡ some (minus_one, kernel0)))
    ⊎ ((fd : ℕ) × (2 ≤ fd)
        × (fd < 8)
        × ((entry kernel0 fd).flags ≡ 0)
        × ((j : ℕ) → 2 ≤ j → j < fd → (entry kernel0 j).flags ≢ 0)
        × (sys_open blank no_file no_ports (some text_a) kernel0
            ≡ some (fd, set_entry fd (opened_as file_a) kernel0)))
sys_open_example = sys_open_lem blank no_file no_ports text_a file_a kernel0 found_a (inr type_a)

descriptors_refused_example : sys_close 4 kernel0 ≡ (minus_one, kernel0)
descriptors_refused_example =
    (descriptors_refused blank no_file no_ports wait0 4 (some blank) 10 kernel0 (omega arith)
      (inr refl)).2
