-- ===== src/Process/Running.antt =====
-- Sequences of execute, halt and switches of the terminal that executes
-- (student-distrib/system_call.c), and one execute with its halt.
use mathlib.Core.Path.{subst}
use fuzzy_os.Base.{
  Bool, Bool-cases, List, Option, Option-cases, Word, add32, ap, arith, false, if◌then◌else◌, inl,
  inr, minus_one, none, not, refl, slt, some, sym, true, ℕ, ◌<◌, ◌==◌, ◌≡◌, ◌≢◌,
}
use fuzzy_os.Console.Input.{puts-OnlyPrints}
use fuzzy_os.Display.{set_execute_term}
use fuzzy_os.Files.{look_up}
use fuzzy_os.Kernel.{Kernel, current_num, entry, max_pid}
use fuzzy_os.Process.{
  Frame, Outcome, count_down, count_up, create_pcb, entry_point, execute, execute_file, final, halt,
  is_executable, load_program, max_processes_message, parse_command, print_text, read_into, resumed,
  returned, shell, started, then_return,
}
use fuzzy_os.Process.Counts.{
  IsCounted, IsCounted-same, SameCounts, count_down-IsCounted, count_down-count_up,
  count_up-IsCounted, processes,
}
use fuzzy_os.Process.Ending.{halt-resumed, torn_down-Kept}

-- What execute has done to the kernel, by the way it ends.
abbrev pub AfterExecute : Kernel → Outcome → Type 0
AfterExecute k (returned v k') =
    SameCounts k k' × (k'.pcbs ≡ k.pcbs) × (k'.frames ≡ k.frames) × (k'.paging ≡ k.paging)
AfterExecute k (started entry k') = SameCounts (count_up k) k'
AfterExecute k (resumed status esp ebp k') = ⊥

-- The same behind the count.
abbrev AfterFile : Kernel → Outcome → Type 0
AfterFile k (returned v k') = k' ≡ count_down k
AfterFile k (started entry k') = SameCounts k k'
AfterFile k (resumed status esp ebp k') = ⊥

if-AfterFile :
    (k : Kernel) (t : Bool) (x y : Outcome)
    → AfterFile k x
    → AfterFile k y
    → AfterFile k (if t then x else y)
if-AfterFile k true x y p q = p
if-AfterFile k false x y p q = q

program-SameCounts :
    (f : Frame) (args : List ℕ) (inode : ℕ) (k : Kernel)
    → SameCounts k (create_pcb args f.esp f.ebp (load_program inode k))
unfolding create_pcb load_program
program-SameCounts f args inode k = record { pid = refl; process_num = λ t. refl; term = refl }

execute_file-AfterFile :
    (f : Frame) (command args : List ℕ) (k : Kernel) → AfterFile k (execute_file f command args k)
unfolding execute_file
execute_file-AfterFile f command args k =
    elim (Option-cases (look_up f.stack f.junk k (some command)).1) [
      | inl e ↦ rw (e, execute_file) refl
      | inr (file, e) ↦
          rw (e, execute_file)
            (if-AfterFile k (not ((look_up f.stack f.junk k (some command)).0 == 0))
              (returned minus_one (count_down k))
              (if not (is_executable (read_into k.image file.inode_num 0 f.buf 4))
                then returned minus_one (count_down k)
                else started (entry_point f k.image file.inode_num)
                    (create_pcb args f.esp f.ebp (load_program file.inode_num k)))
              refl
              (if-AfterFile k (not (is_executable (read_into k.image file.inode_num 0 f.buf 4)))
                (returned minus_one (count_down k))
                (started (entry_point f k.image file.inode_num)
                  (create_pcb args f.esp f.ebp (load_program file.inode_num k)))
                refl (program-SameCounts f args file.inode_num k)))
    ]

after_file : (k : Kernel) (o : Outcome) → IsCounted k → AfterFile (count_up k) o → AfterExecute k o
unfolding count_up count_down
after_file k (returned v k') c e = (
  subst (SameCounts k) (sym e) (count_down-count_up k c),
  ap (λ m. m.pcbs) e,
  ap (λ m. m.frames) e,
  ap (λ m. m.paging) e,
)
after_file k (started entry k') c s = s
after_file k (resumed status esp ebp k') c r = absurd r

-- execute in a kernel whose counts agree: when it returns, because the pointer is NULL, six processes
-- run, the word names no file or the file is no program, then counts, blocks, frames and mappings
-- are as before; when a program starts, both counts are up by one.
pub execute-AfterExecute :
    (f : Frame) (command : Option (List ℕ)) (k : Kernel)
    → IsCounted k
    → AfterExecute k (execute f command k)
unfolding execute
execute-AfterExecute f none k c =
    (record { pid = refl; process_num = λ t. refl; term = refl }, refl, refl, refl)
execute-AfterExecute f (some command) k c = elim (Bool-cases (slt max_pid (add32 k.pid 1))) [
  | inl e ↦ rw e (
    record {
      pid = refl;
      process_num = λ t. refl;
      term = (puts-OnlyPrints max_processes_message k.keys.con).execute;
    },
    refl,
    refl,
    refl,
  )
  | inr e ↦ rw e (
      after_file k _ c
        (execute_file-AfterFile f (parse_command command).0 (parse_command command).1 (count_up k)))
]

room_below_six :
    (k : Kernel) → IsCounted k → slt max_pid (add32 k.pid 1) ≡ false → processes k.pid < 6
room_below_six k c e = ground (arith, c.room)

execute-IsCounted :
    (f : Frame) (command : Option (List ℕ)) (k : Kernel)
    → IsCounted k
    → IsCounted (final (execute f command k))
unfolding execute
execute-IsCounted f none k c = c
execute-IsCounted f (some command) k c = elim (Bool-cases (slt max_pid (add32 k.pid 1))) [
  | inl e ↦ rw e (
      IsCounted-same k (print_text max_processes_message k)
        (record {
          pid = refl;
          process_num = λ t. refl;
          term = (puts-OnlyPrints max_processes_message k.keys.con).execute;
        })
        c)
  | inr e ↦ rw e (
      file_counted k
        (execute_file f (parse_command command).0 (parse_command command).1 (count_up k)) c
        (room_below_six k c e)
        (execute_file-AfterFile f (parse_command command).0 (parse_command command).1 (count_up k)))
]
  where
    file_counted :
        (k : Kernel) (o : Outcome)
        → IsCounted k
        → processes k.pid < 6
        → AfterFile (count_up k) o
        → IsCounted (final o)
    file_counted k (returned v k') c room e =
        subst IsCounted (sym e)
          (IsCounted-same k (count_down (count_up k)) (count_down-count_up k c) c)
    file_counted k (started entry k') c room s =
        IsCounted-same (count_up k) k' s (count_up-IsCounted k c room)
    file_counted k (resumed status esp ebp k') c room r = absurd r

then_return-final : (o : Outcome) → final (then_return o) ≡ final o
then_return-final (returned v k) = refl
then_return-final (started entry k) = refl
then_return-final (resumed status esp ebp k) = refl

halt-IsCounted :
    (f : Frame) (table status : Word) (k : Kernel)
    → IsCounted k
    → processes (current_num k) ≢ 0
    → IsCounted (final (halt f table status k))
unfolding halt
halt-IsCounted f table status k c run = elim (Bool-cases (current_num k == 0)) [
  | inl e ↦
      rw (e, then_return-final (execute f (some shell) (count_down k)))
        (execute-IsCounted f (some shell) (count_down k) (count_down-IsCounted k c run))
  | inr e ↦
      subst (λ o. IsCounted (final o)) (sym (halt-resumed f table status k (ground arith)))
        (IsCounted-same (count_down k) _
          (record {
            pid = (torn_down-Kept k).pid;
            process_num = λ t. ap (λ g. g t) (torn_down-Kept k).process_num;
            term = (torn_down-Kept k).term;
          })
          (count_down-IsCounted k c run))
]

-- What a process or the clock does to the counts; a halt is called by a process that runs.
pub data ProcessStep : Kernel → Kernel → Type 0 where
  executing :
      (f : Frame) (command : Option (List ℕ)) (k : Kernel)
      → ProcessStep k (final (execute f command k))
  halting :
      (f : Frame) (table status : Word) (k : Kernel)
      → processes (current_num k) ≢ 0
      → ProcessStep k (final (halt f table status k))
  switching :
      (t : ℕ) (k : Kernel) → t < 3 → ProcessStep k (record k { keys = set_execute_term t k.keys })

pub data Run (k : Kernel) : Kernel → Type 0 where
  start : Run k k
  then_step : {l m : Kernel} → Run k l → ProcessStep l m → Run k m

ProcessStep-IsCounted : {k l : Kernel} → ProcessStep k l → IsCounted k → IsCounted l
unfolding set_execute_term
ProcessStep-IsCounted (executing f command k) c = execute-IsCounted f command k c
ProcessStep-IsCounted (halting f table status k run) c = halt-IsCounted f table status k c run
ProcessStep-IsCounted (switching t k l) c = record {
  terminal = l;
  pid_word = c.pid_word;
  words = c.words;
  sum = c.sum;
  room = c.room;
}

-- In every sequence of execute, halt and switches the count of all processes stays the sum of the
-- three terminals' counts, and at most six.
pub Run-IsCounted : {k l : Kernel} → IsCounted k → Run k l → IsCounted l
Run-IsCounted c start = c
Run-IsCounted c (then_step r s) = ProcessStep-IsCounted s (Run-IsCounted c r)
