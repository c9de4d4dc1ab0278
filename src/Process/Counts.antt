-- ===== src/Process/Counts.antt =====
-- The counts of execute and halt (student-distrib/system_call.c): `pid`, of all processes, and
-- `terminal_process_num`, of each terminal's; both stand one below the number of processes.
use fuzzy_os.Base.{
  Word, add32, arith, refl, sub32, suc, update, zero, ℕ, ◌+◌, ◌<◌, ◌^◌, ◌≡◌, ◌≢◌, ◌≤◌,
}
use fuzzy_os.Kernel.{Kernel, current, current_num}
use fuzzy_os.Process.{count_down, count_up}

-- How many processes a count stands for.
abbrev pub processes : Word → ℕ
processes n = add32 n 1

abbrev pub total : Kernel → ℕ
total k = processes (k.process_num 0) + processes (k.process_num 1) + processes (k.process_num 2)

-- The count of all processes is the sum of the terminals', and is at most six.
pub record IsCounted (k : Kernel) : Type 0 where
  pub terminal : current k < 3
  pub pid_word : k.pid < 2 ^ 32
  pub words : (t : ℕ) → t < 3 → k.process_num t < 2 ^ 32
  pub sum : processes k.pid ≡ total k
  pub room : processes k.pid ≤ 6

-- Two states with the same counts.
pub record SameCounts (k k' : Kernel) : Type 0 where
  pub pid : k'.pid ≡ k.pid
  pub process_num : (t : ℕ) → k'.process_num t ≡ k.process_num t
  pub term : current k' ≡ current k

pub IsCounted-same : (k k' : Kernel) → SameCounts k k' → IsCounted k → IsCounted k'
IsCounted-same k k' s c = record {
  terminal = ground (arith, s.term, c.terminal);
  pid_word = ground (arith, s.pid, c.pid_word);
  words = λ t l. ground (arith, s.process_num t, c.words t l);
  sum = ground (arith, s.pid, s.process_num 0, s.process_num 1, s.process_num 2, c.sum);
  room = ground (arith, s.pid, c.room);
}

-- One count of the three changes.
sum_update :
    (g : ℕ → Word) (t : ℕ) (v : Word)
    → t < 3
    → processes (update g t v 0)
        + processes (update g t v 1)
        + processes (update g t v 2)
        + processes (g t)
      ≡ processes (g 0) + processes (g 1) + processes (g 2) + processes v
sum_update g zero v h = omega arith
sum_update g (suc zero) v h = omega arith
sum_update g (suc (suc zero)) v h = omega arith
sum_update g (suc (suc (suc t))) v h = absurd (omega arith)

current-low : (k : Kernel) → IsCounted k → processes (current_num k) ≤ total k
current-low k c = go k.process_num (current k) c.terminal
  where
    go :
        (g : ℕ → Word) (t : ℕ)
        → t < 3
        → processes (g t) ≤ processes (g 0) + processes (g 1) + processes (g 2)
    go g zero h = omega arith
    go g (suc zero) h = omega arith
    go g (suc (suc zero)) h = omega arith
    go g (suc (suc (suc t))) h = absurd (omega arith)

update_word :
    (g : ℕ → Word) (t : ℕ) (v : Word)
    → ((u : ℕ) → u < 3 → g u < 2 ^ 32)
    → v < 2 ^ 32
    → (u : ℕ) → u < 3
    → update g t v u < 2 ^ 32
update_word g t v h l u lu = ground (arith, h u lu)

pub count_up-IsCounted : (k : Kernel) → IsCounted k → processes k.pid < 6 → IsCounted (count_up k)
unfolding count_up
count_up-IsCounted k c room =
    let low : processes (current_num k) ≤ total k = current-low k c in
    let all : processes k.pid ≡ total k = c.sum in
    record {
      terminal = c.terminal;
      pid_word = omega arith;
      words = update_word k.process_num (current k) (add32 (current_num k) 1) c.words (omega arith);
      sum = omega (
        arith,
        sum_update k.process_num (current k) (add32 (current_num k) 1) c.terminal,
        low,
        all,
        c.words (current k) c.terminal,
        c.pid_word,
      );
      room = omega (arith, c.pid_word);
    }

pub count_down-IsCounted :
    (k : Kernel) → IsCounted k → processes (current_num k) ≢ 0 → IsCounted (count_down k)
unfolding count_down
count_down-IsCounted k c some_run =
    let low : processes (current_num k) ≤ total k = current-low k c in
    let all : processes k.pid ≡ total k = c.sum in
    record {
      terminal = c.terminal;
      pid_word = omega arith;
      words = update_word k.process_num (current k) (sub32 (current_num k) 1) c.words (omega arith);
      sum = omega (
        arith,
        sum_update k.process_num (current k) (sub32 (current_num k) 1) c.terminal,
        low,
        all,
        some_run,
        c.words (current k) c.terminal,
        c.pid_word,
        c.room,
      );
      room = omega (arith, c.pid_word, c.room, low, all, some_run);
    }

pub count_down-count_up : (k : Kernel) → IsCounted k → SameCounts k (count_down (count_up k))
unfolding count_down count_up
count_down-count_up k c = record {
  pid = omega (arith, c.pid_word);
  process_num = λ t. back k.process_num (current k) t (c.words (current k) c.terminal);
  term = refl;
}
  where
    back :
        (g : ℕ → Word) (a t : ℕ)
        → g a < 2 ^ 32
        → update (update g a (add32 (g a) 1)) a (sub32 (update g a (add32 (g a) 1) a) 1) t ≡ g t
    back g a t h = ground arith
