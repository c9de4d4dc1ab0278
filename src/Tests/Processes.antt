-- ===== src/Tests/Processes.antt =====
-- Processes, the scheduler and the mappings (student-distrib/system_call.c, scheduler.c, paging.c).
use fuzzy_os.Base.{
  List, Memory, Word, [], ap, arith, false, get_or, inl, load32, refl, some, true, ℕ, ◌%◌, ◌++◌,
  ◌+◌, ◌<◌, ◌^◌, ◌∙◌, ◌∷◌, ◌≡◌, ◌≢◌, ◌≤◌, ◌⊎◌,
}
use fuzzy_os.Clib.Strings.{strlen, text_of}
use fuzzy_os.FileSystem.{fill_dentry, inode_length}
use fuzzy_os.FileSystem.Start.{file_byte}
use fuzzy_os.Files.{look_up}
use fuzzy_os.Kernel.{
  Kernel, current, current_num, entry, frame_address, get_pcb, pcb_address, stack_top,
}
use fuzzy_os.Kernel.Layout.{processes_apart}
use fuzzy_os.Paging.{init_paging, map_virtual_addr_to_physical_4kb_page}
use fuzzy_os.Paging.Maps.{init_paging_lem, vidmap_aliases_zero}
use fuzzy_os.Paging.Walk.{translate}
use fuzzy_os.Process.{
  execute, final, halt, image_offset, parse_command, parse_in_bounds, resumed, skip_spaces,
  split_word, started,
}
use fuzzy_os.Process.Command.{parse_in_bounds_lem, spaces}
use fuzzy_os.Process.Counts.{IsCounted}
use fuzzy_os.Process.Ending.{halt_child_lem, halt_closes_parent}
use fuzzy_os.Process.Returning.{execute-getargs, execute_then_halt}
use fuzzy_os.Process.Running.{
  AfterExecute, Run-IsCounted, execute-AfterExecute, halting, start, then_step,
}
use fuzzy_os.Process.Starting.{execute_lem}
use fuzzy_os.Scheduler.{Scheduler, pit_irq, resumes, switch_terminal}
use fuzzy_os.Scheduler.Pages.{switch_terminal_lem}
use fuzzy_os.Scheduler.Rounds.{round_robin}
use fuzzy_os.Syscalls.{getargs}
use fuzzy_os.Tests.Machine.{
  blank, call0, disk, disk-IsProgram, file_a, found_a, found_command_a, kernel0, kernel1, paging0,
  text_a,
}

parse_in_bounds_example :
    (parse_in_bounds (spaces 2 ++ (99 ∷ ([] ++ (spaces 1 ++ text_a)))) ≡ some (99 ∷ [], text_a))
    × (parse_in_bounds (spaces 2 ++ 99 ∷ []) ≡ some (99 ∷ [], []))
parse_in_bounds_example =
    parse_in_bounds_lem 2 0 99 [] text_a (omega arith, omega arith, tt) (omega arith, tt)
      (omega arith) (omega arith)

execute_example :
    (k' : Kernel) × (execute call0 (some text_a) kernel0
      ≡ started (load32 (λ x. file_byte disk 0 (24 + x)) 0) k')
    × ((x : ℕ)
        → x < inode_length disk 0
        → k'.frames (frame_address 0 1) (image_offset + x) ≡ file_byte disk 0 x)
    × ((x : ℕ)
        → x < 2 ^ 22
        → translate 0x5000 k'.paging (0x8000000 + x) ≡ some (frame_address 0 1 + x, true))
    × (k'.pid ≡ 3)
    × (current_num k' ≡ 1)
    × (k'.esp0 ≡ stack_top 0 1)
    × ((a : Word) → a ≢ frame_address 0 1 → k'.frames a ≡ kernel0.frames a)
unfolding fill_dentry inode_length
execute_example =
    execute_lem call0 0x5000 text_a kernel0 file_a (omega arith) (omega arith) refl found_command_a
      disk-IsProgram (omega arith)

halt_child_example :
    (k' : Kernel) × (halt call0 0x5000 7 kernel1
      ≡ resumed 7 (get_pcb kernel1).parent_esp (get_pcb kernel1).parent_ebp k')
    × (k'.pid ≡ 2)
    × (current k' ≡ 0)
    × (current_num k' ≡ 0)
    × (k'.esp0 ≡ stack_top 0 0)
    × ((x : ℕ)
        → x < 2 ^ 22
        → translate 0x5000 k'.paging (0x8000000 + x) ≡ some (frame_address 0 0 + x, true))
halt_child_example = halt_child_lem call0 0x5000 7 kernel1 (omega arith) (omega arith) (omega arith)

halt_closes_parent_example : (entry (final (halt call0 0x5000 7 kernel1)) 2).flags ≡ 0
halt_closes_parent_example =
    halt_closes_parent call0 0x5000 7 kernel1 2 (omega arith) (omega arith) (omega arith)

execute_then_halt_example :
    (k' : Kernel) × (k'' : Kernel) × (execute call0 (some text_a) kernel0
      ≡ started (load32 (λ x. file_byte disk 0 (24 + x)) 0) k')
    × (halt call0 0x5000 7 k' ≡ resumed 7 0x7FD000 0x7FD010 k'')
    × (k''.pid ≡ 2)
    × (current_num k'' ≡ 0)
    × ((x : ℕ)
        → x < 2 ^ 22
        → translate 0x5000 k''.paging (0x8000000 + x) ≡ some (frame_address 0 0 + x, true))
unfolding fill_dentry
execute_then_halt_example =
    execute_then_halt call0 call0 0x5000 7 text_a kernel0 file_a (omega arith) (omega arith)
      (omega arith) refl refl found_command_a disk-IsProgram

-- "a b"
abbrev text_ab : List ℕ
text_ab = 97 ∷ 32 ∷ 98 ∷ []

command_ab : parse_command text_ab ≡ (text_a, 98 ∷ [])
unfolding parse_command skip_spaces split_word text_of
command_ab = refl

command_ab-strlen : strlen (parse_command text_ab).1 ≡ 1
unfolding parse_command skip_spaces split_word text_of strlen
command_ab-strlen = refl

parsed_ab : parse_in_bounds text_ab ≡ some ((parse_command text_ab).0, (parse_command text_ab).1)
unfolding parse_in_bounds parse_command skip_spaces split_word text_of
parsed_ab = refl

execute-getargs_example :
    (k' : Kernel) × (buf' : Memory) × (execute call0 (some text_ab) kernel0
      ≡ started (load32 (λ x. file_byte disk 0 (24 + x)) 0) k')
    × (getargs (some blank) 10 k' ≡ (0, some buf'))
    × ((x : ℕ)
        → x < strlen (parse_command text_ab).1
        → buf' x ≡ get_or (parse_command text_ab).1 x 0)
unfolding fill_dentry
execute-getargs_example =
    execute-getargs call0 text_ab kernel0 file_a blank 10 (parse_command text_ab).0
      (parse_command text_ab).1 refl parsed_ab
      (ap (λ c. look_up call0.stack call0.junk kernel0 (some c.0)) command_ab ∙ found_a)
      disk-IsProgram (omega (arith, command_ab-strlen)) (omega (arith, command_ab-strlen))

kernel0-IsCounted : IsCounted kernel0
kernel0-IsCounted = record {
  terminal = omega arith;
  pid_word = omega arith;
  words = λ t l. omega arith;
  sum = refl;
  room = omega arith;
}

execute-AfterExecute_example : AfterExecute kernel0 (execute call0 (some text_a) kernel0)
execute-AfterExecute_example = execute-AfterExecute call0 (some text_a) kernel0 kernel0-IsCounted

Run-IsCounted_example : IsCounted (final (halt call0 0x5000 7 kernel0))
Run-IsCounted_example =
    Run-IsCounted kernel0-IsCounted (then_step start (halting call0 0x5000 7 kernel0 (omega arith)))

abbrev scheduler0 : Scheduler
scheduler0 = record { kernel = kernel0; terminal_esp = λ t. 0; terminal_ebp = λ t. 0 }

round_robin_example :
    (s1 : Scheduler) × (s2 : Scheduler) × (s3 : Scheduler) × ((p : Word) × (q : Word) × (pit_irq
          call0 0x5000 100 100 scheduler0
        ≡ resumes p q s1))
    × ((p : Word) × (q : Word) × (pit_irq call0 0x5000 101 101 s1 ≡ resumes p q s2))
    × (pit_irq call0 0x5000 102 102 s2 ≡ resumes 100 100 s3)
    × (current s1.kernel ≢ 0)
    × (current s2.kernel ≢ 0)
    × (current s2.kernel ≢ current s1.kernel)
    × (current s3.kernel ≡ 0)
round_robin_example =
    round_robin call0 0x5000 (λ i. 100 + i) (λ i. 100 + i) scheduler0 (omega arith)
      (omega arith, omega arith, omega arith)

switch_terminal_example :
    translate 0x5000 (switch_terminal 0x5000 kernel0).paging (0x8400000 + 5)
    ≡ some (0xBA000 + 5, true)
switch_terminal_example =
    (switch_terminal_lem 0x5000 kernel0 7 5 refl (omega arith) (omega arith) (omega arith)).2

processes_apart_example :
    ((pcb_address 0 0 + 0x2000 ≤ pcb_address 1 2) ⊎ (pcb_address 1 2 + 0x2000 ≤ pcb_address 0 0))
    × ((pcb_address 1 2 + 152 + 8036 ≤ stack_top 0 0) ⊎ (stack_top 0 0 + 4 ≤ pcb_address 1 2))
    × ((frame_address 0 0 + 0x400000 ≤ frame_address 1 2)
        ⊎ (frame_address 1 2 + 0x400000 ≤ frame_address 0 0))
    × (frame_address 0 0 % 0x400000 ≡ 0)
    × (pcb_address 1 2 + 0x2000 ≤ frame_address 0 0)
processes_apart_example =
    processes_apart 0 0 1 2 (omega arith) (omega arith) (omega arith) (omega arith)
      (inl (omega arith))

init_paging_example : translate 0x5000 (init_paging 0x5000) 0xB8010 ≡ some (0xB8010, false)
init_paging_example = init_paging_lem 0x5000 0xB8010 refl (omega arith)

vidmap_aliases_zero_example :
    translate 0x5000
      (map_virtual_addr_to_physical_4kb_page 0x5000 0x8400000 0xB8000
        (record paging0 { page_directory = λ i. 0x5003 }))
      16
    ≡ some (0xB8010, false)
vidmap_aliases_zero_example =
    vidmap_aliases_zero 0x5000 (record paging0 { page_directory = λ i. 0x5003 }) 16 refl
      (omega arith) refl
