-- ===== src/Scheduler.antt =====
-- student-distrib/scheduler.c, and the handler of the timer interrupt in student-distrib/pit.c. The registers of a suspended
-- terminal are kept in `terminal_esp` and `terminal_ebp`; a call is given the registers that it
-- finds and what a call of execute finds on the stack.
pub mod Rounds
pub mod Pages
pub mod Booting
use fuzzy_os.Base.{Word, if◌then◌else◌, minus_one, some, update, ℕ, ◌%◌, ◌+◌, ◌==◌}
use fuzzy_os.Console.{clear, colors, reset_cursor, terminal_vidmem, update_cursor}
use fuzzy_os.Display.{Keyboard, change_display_terminal, set_display_term, set_execute_term}
use fuzzy_os.Kernel.{
  Kernel, current, entry, frame_address, num_terminals, stack_top, user_mem_size, user_mem_start,
}
use fuzzy_os.Keyboard.{shown}
use fuzzy_os.Paging.{map_virtual_addr_to_physical, map_virtual_addr_to_physical_4kb_page, video}
use fuzzy_os.Pic.{send_eoi}
use fuzzy_os.Process.{Frame, Outcome, execute, kernel_ds, resumed, returned, shell, started}

-- `terminal_esp` and `terminal_ebp`, and the rest of the kernel
pub record Scheduler : Type 0 where
  pub kernel : Kernel
  pub terminal_esp : ℕ → Word
  pub terminal_ebp : ℕ → Word

-- How a call ends: execute has been called, as it has ended, or the registers of the terminal that
-- is next are loaded.
pub data Switched : Type 0 where
  booted : Outcome → (ℕ → Word) → (ℕ → Word) → Switched
  resumes : Word → Word → Scheduler → Switched

-- The first `asm` statement.
unfoldable pub save_registers : Word → Word → Scheduler → Scheduler
save_registers esp ebp s = record s {
  terminal_esp = update s.terminal_esp (current s.kernel) esp;
  terminal_ebp = update s.terminal_ebp (current s.kernel) ebp;
}

-- The console calls before a shell starts on terminal `t`.
unfoldable pub open_terminal : ℕ → Keyboard → Keyboard
open_terminal t keys =
    let shown : Keyboard =
      set_display_term t
        (set_execute_term t (record (change_display_terminal t keys) { attrib = colors t })) in
    record shown { con = update_cursor (reset_cursor (clear shown.con)) }

unfoldable pub boot_terminal : Frame → ℕ → Kernel → Outcome
unfolding open_terminal
boot_terminal f t k = execute f (some shell) (record k { keys = open_terminal t k.keys })

-- `video_phys_mem`
abbrev pub video_phys_mem : ℕ → ℕ → Word
video_phys_mem display execute = if display == execute then video else terminal_vidmem execute

-- The end of the function: the next terminal, its two mappings and its kernel stack.
unfoldable pub switch_terminal : Word → Kernel → Kernel
switch_terminal table k =
    let t : ℕ = (current k + 1) % num_terminals in
    record k {
      keys = set_execute_term t k.keys;
      paging =
          map_virtual_addr_to_physical_4kb_page table (user_mem_start + user_mem_size)
            (video_phys_mem k.keys.con.display t)
            (map_virtual_addr_to_physical user_mem_start (frame_address t (k.process_num t))
              k.paging);
      ss0 = kernel_ds;
      esp0 = stack_top t (k.process_num t);
    }

-- scheduler
unfoldable pub scheduler : Frame → Word → Word → Word → Scheduler → Switched
unfolding save_registers boot_terminal switch_terminal
scheduler f table esp ebp s =
    let saved : Scheduler = save_registers esp ebp s in
    let k : Kernel = switch_terminal table s.kernel in
    if s.kernel.pid == minus_one
    then booted (boot_terminal f 2 s.kernel) saved.terminal_esp saved.terminal_ebp
    else if s.kernel.pid == 0
    then booted (boot_terminal f 1 s.kernel) saved.terminal_esp saved.terminal_ebp
    else if s.kernel.pid == 1
    then booted (boot_terminal f 0 s.kernel) saved.terminal_esp saved.terminal_ebp
    else resumes (saved.terminal_esp (current k)) (saved.terminal_ebp (current k))
        (record saved { kernel = k })

-- `send_eoi(0)`, on the ports that the console's writes go to
abbrev pub end_timer : Kernel → Kernel
end_timer k = record k {
  keys = record (k.keys) { con = record (k.keys.con) { ports = send_eoi 0 k.keys.con.ports } };
}

-- The rest of pit_irq, where the scheduler comes back: to this terminal or to the one that is next.
abbrev pub after_scheduler : Switched → Switched
after_scheduler (booted (returned v k) esp ebp) = booted (returned v (end_timer k)) esp ebp
after_scheduler (booted (started entry k) esp ebp) = booted (started entry k) esp ebp
after_scheduler (booted (resumed status sp bp k) esp ebp) = booted (resumed status sp bp k) esp ebp
after_scheduler (resumes esp ebp s) = resumes esp ebp (record s { kernel = end_timer s.kernel })

-- pit_irq of student-distrib/pit.c
unfoldable pub pit_irq : Frame → Word → Word → Word → Scheduler → Switched
unfolding scheduler
pit_irq f table esp ebp s =
    after_scheduler (scheduler f table esp ebp (record s { kernel = end_timer s.kernel }))
