-- ===== src/Tests/Shells.antt =====
-- The first interrupt of the timer, on an image whose one file is the shell.
use mathlib.Core.Path.{subst}
use fuzzy_os.Base.{
  Memory, arith, if◌then◌else◌, load32, minus_one, refl, some, sym, update, ℕ, ◌+◌, ◌==◌, ◌≡◌,
}
use fuzzy_os.Clib.Strings.{pad_from, strlen, strncmp, strncmp_from, strncpy, strncpy_from, text_of}
use fuzzy_os.FileSystem.{
  Dentry, data_block, data_byte, fill_dentry, find_dentry, find_name, inode_length, name_buffer,
  read_dentry_by_name,
}
use fuzzy_os.FileSystem.Start.{file_byte}
use fuzzy_os.Kernel.{Kernel, current}
use fuzzy_os.Process.{parse_command, shell, skip_spaces, split_word, started}
use fuzzy_os.Process.Starting.{IsProgram}
use fuzzy_os.Scheduler.{Scheduler, booted, pit_irq}
use fuzzy_os.Scheduler.Booting.{HasShell, pit_irq-boots}
use fuzzy_os.Tests.Machine.{blank, call0, disk, kernel0, no_file}

abbrev shell_disk : Memory
shell_disk i =
    if i == 64
    then 115
    else if i == 65
    then 104
    else if i == 66
    then 101
    else if i == 67
    then 108
    else if i == 68
    then 108
    else disk i

abbrev no_shells : Scheduler
no_shells = record {
  kernel = record kernel0 { image = shell_disk; pid = minus_one };
  terminal_esp = λ t. 0;
  terminal_ebp = λ t. 0;
}

abbrev shell_file : Dentry
shell_file = fill_dentry shell_disk (name_buffer blank shell) 0 no_file

shell_file-inode : shell_file.inode_num ≡ 0
unfolding fill_dentry
shell_file-inode = refl

shell_disk-IsProgram : IsProgram shell_disk 0
unfolding inode_length data_block data_byte
shell_disk-IsProgram = record {
  inode_low = omega arith;
  stored = (omega arith, λ b p l. absurd (omega arith));
  header = omega arith;
  magic = refl;
}

found_shell :
    read_dentry_by_name shell_disk blank (some (parse_command shell).0) (some no_file)
    ≡ (0, some shell_file)
unfolding read_dentry_by_name find_dentry find_name strlen strncmp strncmp_from name_buffer strncpy
    strncpy_from pad_from parse_command skip_spaces split_word text_of
found_shell = refl

shell_disk-HasShell : HasShell call0 shell_disk shell_file
shell_disk-HasShell = record {
  found = found_shell;
  program = subst (λ n. IsProgram shell_disk n) (sym shell_file-inode) shell_disk-IsProgram;
}

pit_irq-boots_example :
    (k' : Kernel) × (pit_irq call0 0x5000 100 200 no_shells
      ≡ booted
          (started (load32 (λ x. file_byte shell_disk shell_file.inode_num (24 + x)) 0) k')
          (update no_shells.terminal_esp (current no_shells.kernel) 100)
          (update no_shells.terminal_ebp (current no_shells.kernel) 200))
    × (current k' ≡ 2)
    × (k'.keys.con.display ≡ 2)
    × (k'.pid ≡ 0)
    × ((u : ℕ) → k'.process_num u ≡ (if u == 2 then 1 else 0))
pit_irq-boots_example =
    pit_irq-boots call0 0x5000 100 200 no_shells 2 shell_file (omega arith) refl shell_disk-HasShell
