-- ===== src/Scheduler/Booting.antt =====
-- The first three interrupts of the timer, in which student-distrib/scheduler.c starts the shells.
use native.Mathlib.Decide.{dec_lt}
use fuzzy_os.Base.{
  List, Memory, Word, add32, ap, arith, false, if◌then◌else◌, load32, minus_one, refl, slt, some,
  sub32, true, update, ℕ, ◌+◌, ◌<◌, ◌==◌, ◌∙◌, ◌≡◌,
}
use fuzzy_os.Console.{clear, reset_cursor, update_cursor}
use fuzzy_os.Display.{Keyboard, change_display_terminal, set_display_term, set_execute_term}
use fuzzy_os.FileSystem.{Dentry, read_dentry_by_name}
use fuzzy_os.FileSystem.Start.{file_byte}
use fuzzy_os.Kernel.{Kernel, current, max_pid}
use fuzzy_os.Process.{Frame, count_up, create_pcb, load_program, parse_command, shell, started}
use fuzzy_os.Process.Starting.{IsProgram, entry_point-load32, execute-started, ready}
use fuzzy_os.Scheduler.{
  Scheduler, after_scheduler, boot_terminal, booted, end_timer, open_terminal, pit_irq,
  save_registers, scheduler,
}

open_terminal-current :
    (t : ℕ) (keys : Keyboard)
    → ((open_terminal t keys).con.execute ≡ t) × ((open_terminal t keys).con.display ≡ t)
unfolding open_terminal change_display_terminal set_display_term set_execute_term update_cursor
    reset_cursor clear
open_terminal-current t keys = (refl, refl)

-- The kernel with the terminal `t` on display and running.
abbrev pub at_terminal : ℕ → Kernel → Kernel
at_terminal t k = record k { keys = open_terminal t k.keys }

-- The shell's entry in the directory of the image, which is a program.
pub record HasShell (f : Frame) (img : Memory) (file : Dentry) : Type 0 where
  pub found :
      read_dentry_by_name img f.stack (some (parse_command shell).0) (some f.junk) ≡ (0, some file)
  pub program : IsProgram img file.inode_num

boot_terminal-started :
    (f : Frame) (t : ℕ) (k : Kernel) (file : Dentry)
    → slt max_pid (add32 k.pid 1) ≡ false
    → HasShell f k.image file
    → boot_terminal f t k
      ≡ started
          (load32 (λ x. file_byte k.image file.inode_num (24 + x)) 0)
          (ready f (parse_command shell).1 file.inode_num (at_terminal t k))
unfolding boot_terminal
boot_terminal-started f t k file room h =
    execute-started f shell (at_terminal t k) file room h.found h.program
    ∙ ap (λ a. started a (ready f (parse_command shell).1 file.inode_num (at_terminal t k)))
        (entry_point-load32 f k.image file.inode_num h.program)

ready-at_terminal :
    (f : Frame) (args : List ℕ) (inode t : ℕ) (k : Kernel)
    → (current (ready f args inode (at_terminal t k)) ≡ t)
      × ((ready f args inode (at_terminal t k)).keys.con.display ≡ t)
      × ((ready f args inode (at_terminal t k)).pid ≡ add32 k.pid 1)
      × ((u : ℕ)
          → (ready f args inode (at_terminal t k)).process_num u
            ≡ (if u == t then add32 (k.process_num t) 1 else k.process_num u))
unfolding count_up load_program create_pcb open_terminal change_display_terminal set_display_term
    set_execute_term update_cursor reset_cursor clear
ready-at_terminal f args inode t k = (refl, refl, refl, λ u. refl)

scheduler-boots :
    (f : Frame) (table esp ebp : Word) (s : Scheduler) (t : ℕ)
    → t < 3
    → s.kernel.pid ≡ sub32 1 t
    → scheduler f table esp ebp s
      ≡ booted
          (boot_terminal f t s.kernel)
          (save_registers esp ebp s).terminal_esp
          (save_registers esp ebp s).terminal_ebp
unfolding scheduler
scheduler-boots f table esp ebp s t l h = elim (dec_lt t 1) [
  | yes zero_t ↦
      (let z : t ≡ 0 = omega arith in
        let e0 : (s.kernel.pid == minus_one) ≡ false = ground arith in
        let e1 : (s.kernel.pid == 0) ≡ false = ground arith in
        let e2 : (s.kernel.pid == 1) ≡ true = ground arith in rw (e0, e1, e2, z) refl)
  | no n ↦ elim (dec_lt t 2) [
    | yes one_t ↦
        (let z : t ≡ 1 = omega arith in
          let e0 : (s.kernel.pid == minus_one) ≡ false = ground arith in
          let e1 : (s.kernel.pid == 0) ≡ true = ground arith in rw (e0, e1, z) refl)
    | no m ↦
        (let z : t ≡ 2 = omega arith in
          let e0 : (s.kernel.pid == minus_one) ≡ true = ground arith in rw (e0, z) refl)
  ]
]

-- The first three interrupts of the timer, when `pid` is -1, 0 and 1: the shell is started on
-- terminal 2, 1 and 0 in turn, which runs and is on display; the entry point is the word in bytes
-- 24 to 27 of the shell's file, the counts of the terminal and of the system go up by one, the other
-- terminals keep theirs, and the registers of the terminal that ran before are saved.
pub pit_irq-boots :
    (f : Frame) (table esp ebp : Word) (s : Scheduler) (t : ℕ) (file : Dentry)
    → t < 3
    → s.kernel.pid ≡ sub32 1 t
    → HasShell f s.kernel.image file
    → (k' : Kernel) × (pit_irq f table esp ebp s
        ≡ booted
            (started (load32 (λ x. file_byte s.kernel.image file.inode_num (24 + x)) 0) k')
            (update s.terminal_esp (current s.kernel) esp)
            (update s.terminal_ebp (current s.kernel) ebp))
      × (current k' ≡ t)
      × (k'.keys.con.display ≡ t)
      × (k'.pid ≡ sub32 2 t)
      × ((u : ℕ)
          → k'.process_num u
            ≡ (if u == t then add32 (s.kernel.process_num t) 1 else s.kernel.process_num u))
unfolding pit_irq save_registers
pit_irq-boots f table esp ebp s t file l p h =
    let s' : Scheduler = record s { kernel = end_timer s.kernel } in
    let room : slt max_pid (add32 s.kernel.pid 1) ≡ false = ground arith in
    let k' : Kernel =
      ready f (parse_command shell).1 file.inode_num (at_terminal t (end_timer s.kernel)) in
    let facts = ready-at_terminal f (parse_command shell).1 file.inode_num t (end_timer s.kernel) in
    (
      k',
      ap after_scheduler (
          scheduler-boots f table esp ebp s' t l p
          ∙ ap
              (λ o.
                booted o (update s.terminal_esp (current s.kernel) esp)
                  (update s.terminal_ebp (current s.kernel) ebp))
              (boot_terminal-started f t (end_timer s.kernel) file room h)),
      facts.0,
      facts.1,
      omega (arith, facts.2),
      facts.3,
    )
