-- ===== src/Interrupts/Exceptions.antt =====
-- What an exception does to the process that raises it (student-distrib/create_handler.c and halt of
-- student-distrib/system_call.c).
use mathlib.Core.Path.{ap₂}
use fuzzy_os.Base.{
  Bool, Bool-cases, List, Option-cases, Word, [], add32, ap, arith, false, if◌then◌else◌, inl, inr,
  minus_one, not, refl, slt, some, sub32, true, ℕ, ◌+◌, ◌-◌, ◌<◌, ◌==◌, ◌^◌, ◌∙◌, ◌∷◌, ◌≡◌,
}
use fuzzy_os.Console.Input.{puts-OnlyPrints}
use fuzzy_os.Files.{look_up}
use fuzzy_os.Interrupts.Handlers.{handler}
use fuzzy_os.Interrupts.Messages.{message}
use fuzzy_os.Kernel.{Kernel, current, current_num, frame_address, get_pcb, max_pid, pcb_address}
use fuzzy_os.Paging.Walk.{translate}
use fuzzy_os.Process.{
  Frame, Outcome, count_down, count_up, create_pcb, entry_point, execute, execute_file, final, halt,
  halt_child, is_executable, load_program, max_processes_message, parse_command, print_text,
  read_into, restore_parent, resumed, returned, shell, started, then_return,
}
use fuzzy_os.Process.Ending.{halt_child_lem, torn_down-Kept}

-- The kernel when the text has been printed and the flag is set.
abbrev flagged : ℕ → Kernel → Kernel
flagged n k = record (print_text (10 ∷ []) (print_text (message n) k)) { exception_flag = 1 }

print_text-current : (s : List ℕ) (k : Kernel) → current (print_text s k) ≡ current k
print_text-current s k = (puts-OnlyPrints s k.keys.con).execute

flagged-current : (n : ℕ) (k : Kernel) → current (flagged n k) ≡ current k
flagged-current n k =
    print_text-current (10 ∷ []) (print_text (message n) k) ∙ print_text-current (message n) k

flagged-current_num : (n : ℕ) (k : Kernel) → current_num (flagged n k) ≡ current_num k
flagged-current_num n k = ap k.process_num (flagged-current n k)

flagged-get_pcb : (n : ℕ) (k : Kernel) → get_pcb (flagged n k) ≡ get_pcb k
flagged-get_pcb n k =
    ap₂ (λ t m. k.pcbs (pcb_address t m)) (flagged-current n k) (flagged-current_num n k)

-- An exception in a process that another one has started ends the process: the parent goes on where
-- it called execute, with the status 256; both counts go down by one, and the page at
-- 128 MB is the parent's.
pub handler-resumed :
    (f : Frame) (table : Word) (except_num : ℕ) (k : Kernel)
    → current k < 3
    → 0 < current_num k
    → current_num k < 6
    → (k' : Kernel) × (handler f table except_num k
        ≡ resumed 256 (get_pcb k).parent_esp (get_pcb k).parent_ebp k')
      × (k'.pid ≡ sub32 k.pid 1)
      × (current_num k' ≡ current_num k - 1)
      × ((x : ℕ)
          → x < 2 ^ 22
          → translate table k'.paging (0x8000000 + x)
            ≡ some (frame_address (current k) (current_num k - 1) + x, true))
unfolding handler
handler-resumed f table n k t lo hi =
    let (k', h, pid, cur, num, esp, pages) =
      halt_child_lem f table 0 (flagged n k) (omega (arith, flagged-current n k))
        (omega (arith, flagged-current_num n k)) (omega (arith, flagged-current_num n k)) in
    (
      k',
      h ∙ ap (λ p. resumed 256 p.parent_esp p.parent_ebp k') (flagged-get_pcb n k),
      pid,
      num ∙ ap (λ m. m - 1) (flagged-current_num n k),
      λ x l.
          pages x l
          ∙ ap₂ (λ t m. some (frame_address t (m - 1) + x, true)) (flagged-current n k)
              (flagged-current_num n k),
    )

-- The kernel in which a call ends has this exception flag.
abbrev HasFlag : ℕ → Outcome → Type 0
HasFlag v (returned x k) = k.exception_flag ≡ v
HasFlag v (started e k) = k.exception_flag ≡ v
HasFlag v (resumed s p q k) = k.exception_flag ≡ v

HasFlag-final : (v : ℕ) (o : Outcome) → HasFlag v o → (final o).exception_flag ≡ v
HasFlag-final v (returned x k) h = h
HasFlag-final v (started e k) h = h
HasFlag-final v (resumed s p q k) h = h

if-HasFlag :
    (v : ℕ) (t : Bool) (x y : Outcome) → HasFlag v x → HasFlag v y → HasFlag v (if t then x else y)
if-HasFlag v true x y p q = p
if-HasFlag v false x y p q = q

execute_file-HasFlag :
    (f : Frame) (command args : List ℕ) (k : Kernel)
    → HasFlag k.exception_flag (execute_file f command args k)
unfolding execute_file count_down create_pcb load_program
execute_file-HasFlag f command args k =
    elim (Option-cases (look_up f.stack f.junk k (some command)).1) [
      | inl e ↦ rw (e, execute_file) refl
      | inr (file, e) ↦
          rw (e, execute_file)
            (if-HasFlag k.exception_flag (not ((look_up f.stack f.junk k (some command)).0 == 0))
              (returned minus_one (count_down k))
              (if not (is_executable (read_into k.image file.inode_num 0 f.buf 4))
                then returned minus_one (count_down k)
                else started (entry_point f k.image file.inode_num)
                    (create_pcb args f.esp f.ebp (load_program file.inode_num k)))
              refl
              (if-HasFlag k.exception_flag
                (not (is_executable (read_into k.image file.inode_num 0 f.buf 4)))
                (returned minus_one (count_down k))
                (started (entry_point f k.image file.inode_num)
                  (create_pcb args f.esp f.ebp (load_program file.inode_num k)))
                refl refl))
    ]

-- execute leaves the exception flag as it is.
execute-flag :
    (f : Frame) (command : List ℕ) (k : Kernel)
    → (final (execute f (some command) k)).exception_flag ≡ k.exception_flag
unfolding execute count_up
execute-flag f command k = HasFlag-final k.exception_flag (execute f (some command) k) (
    if-HasFlag k.exception_flag (slt max_pid (add32 k.pid 1))
      (returned 0 (print_text max_processes_message k))
      (execute_file f (parse_command command).0 (parse_command command).1 (count_up k)) refl
      (execute_file-HasFlag f (parse_command command).0 (parse_command command).1 (count_up k)))

then_return-final : (o : Outcome) → final (then_return o) ≡ final o
then_return-final (returned v k) = refl
then_return-final (started e k) = refl
then_return-final (resumed s p q k) = refl

-- halt keeps the flag when it restarts the shell, and clears it otherwise.
halt-flag :
    (f : Frame) (table status : Word) (k : Kernel)
    → (final (halt f table status k)).exception_flag
      ≡ (if current_num k == 0 then k.exception_flag else 0)
unfolding halt halt_child count_down restore_parent
halt-flag f table status k = elim (Bool-cases (current_num k == 0)) [
  | inl e ↦ rw e (
      ap (λ k'. k'.exception_flag) (then_return-final (execute f (some shell) (count_down k)))
      ∙ execute-flag f shell (count_down k))
  | inr e ↦ rw e (torn_down-Kept k).flag
]

-- The exception flag is clear after an exception only if the process was not the first one of its
-- terminal: where the shell is started anew, the flag stays set.
pub handler-exception_flag :
    (f : Frame) (table : Word) (except_num : ℕ) (k : Kernel)
    → (final (handler f table except_num k)).exception_flag ≡ (if current_num k == 0 then 1 else 0)
unfolding handler
handler-exception_flag f table n k =
    halt-flag f table 0 (flagged n k) ∙ ap (λ m. if m == 0 then 1 else 0) (flagged-current_num n k)
