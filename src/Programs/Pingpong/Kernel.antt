-- ===== src/Programs/Pingpong/Kernel.antt =====
-- syscalls/ece391pingpong.c on the modelled kernel.
use mathlib.Core.Path.{subst}
use fuzzy_os.Base.{
  Memory, Option, Option-cases, Ports, Word, [], ap, arith, false, inl, inr, minus_one, none, refl,
  slt, some, sym, true, ℕ, ◌<◌, ◌==◌, ◌||◌, ◌∙◌, ◌≡◌, ◌≢◌, ◌≤◌,
}
use fuzzy_os.Console.{Console}
use fuzzy_os.Console.Input.{OnlyPrints}
use fuzzy_os.FileSystem.{Dentry}
use fuzzy_os.Files.{look_up, open_entry, rtc_open}
use fuzzy_os.Kernel.{
  FdaEntry, Kernel, current, entry, get_pcb, pcb_address, rtc_fops, set_entry, terminal_fops,
}
use fuzzy_os.Programs.Calls.{kernel_calls}
use fuzzy_os.Programs.Cat.Files.{
  KernelWrites, Writes-trans, entry-set_entry, nothing, terminal_write-OnlyPrints, write_more,
}
use fuzzy_os.Programs.Cat.Kernel.{write_call-terminal}
use fuzzy_os.Programs.Cat.Running.{CanOpen}
use fuzzy_os.Programs.Pingpong.{dword_at, pingpong_main, rtc_name}
use fuzzy_os.Programs.Pingpong.Frames.{IsWorld, letter, rounds}
use fuzzy_os.Programs.Pingpong.Shown.{IsScreen, pingpong_main-Shown}
use fuzzy_os.Rtc.{Rtc, open_clock, rtc_write}
use fuzzy_os.Rtc.Rates.{rtc_read-terminal_rtc, tuned, tuned-terminal_rtc}
use fuzzy_os.Syscalls.{
  Wait, find_free, open_kind, read_kind, sys_open, sys_read, sys_write, write_kind,
}
use fuzzy_os.Syscalls.Descriptors.{FoundFree, find_free-FoundFree}
use fuzzy_os.TerminalDriver.{terminal_write}

-- Descriptor 1 is the terminal, `clock` is the clock, and a read of the clock waits for at most 512
-- interrupts.
pub record CanPlay (clock : Word) (k : Kernel) : Type 0 where
  pub screen : (entry k 1).fops ≡ terminal_fops
  pub screen_used : (entry k 1).flags ≢ 0
  pub ticking : (entry k clock).fops ≡ rtc_fops
  pub ticking_used : (entry k clock).flags ≢ 0
  pub rate : k.rtc.terminal_rtc (current k) ≤ 1024

-- Printing leaves the descriptors and the clock alone.
CanPlay-prints :
    (clock : Word) (k : Kernel) (c : Console)
    → OnlyPrints k.keys.con c
    → CanPlay clock k
    → CanPlay clock (record k { keys = record (k.keys) { con = c } })
CanPlay-prints clock k c o p =
    let k' : Kernel = record k { keys = record (k.keys) { con = c } } in
    let same : (j : ℕ) → entry k' j ≡ entry k j =
      λ j. ap (λ x. (k.pcbs (pcb_address x (k.process_num x))).fda j) o.execute in
    record {
      screen = ap (λ e. e.fops) (same 1) ∙ p.screen;
      screen_used = λ z. p.screen_used (sym (ap (λ e. e.flags) (same 1)) ∙ z);
      ticking = ap (λ e. e.fops) (same clock) ∙ p.ticking;
      ticking_used = λ z. p.ticking_used (sym (ap (λ e. e.flags) (same clock)) ∙ z);
      rate = subst (λ t. k.rtc.terminal_rtc t ≤ 1024) (sym o.execute) p.rate;
    }

module _ (stack : Memory) (junk : Dentry) (read : Ports → ℕ → ℕ) (table : Word)
    (waiting : Kernel → Wait) (linkage : Word → Kernel → Option (Word × Kernel))
    (patient : (k : Kernel) → 512 ≤ (waiting k).ticks) where
  read_call-clock :
      (clock : Word) (buf : Memory) (k : Kernel)
      → 2 ≤ clock
      → clock < 8
      → CanPlay clock k
      → (r : Rtc) × ((kernel_calls stack junk read table waiting linkage).read_call clock buf 4 k
          ≡ some (0, buf, record k { rtc = r }))
        × (r.terminal_rtc ≡ k.rtc.terminal_rtc)
  unfolding kernel_calls sys_read read_kind
  read_call-clock clock buf k lo hi p =
      let t1 : slt clock 0 || slt 7 clock || clock == 1 ≡ false = ground arith in
      let t2 : (entry k clock).flags == 0 ≡ false = ground (arith, p.ticking_used) in
      let (n, r, e, same) =
        rtc_read-terminal_rtc (current k) (waiting k).ticks k.rtc (omega (arith, p.rate))
          (omega (arith, p.rate, patient k)) in
      (r, rw (t1, t2, p.ticking) (rw e refl), same)

  -- The kernel's calls are a screen and a clock.
  pub clock-IsScreen :
      (clock : Word)
      → 2 ≤ clock
      → clock < 8
      → IsScreen
          (kernel_calls stack junk read table waiting linkage)
          clock
          (CanPlay clock)
          KernelWrites
  clock-IsScreen clock lo hi = record {
    shows = λ buf n k p small.
        (let c : Console = (terminal_write (some buf) n k.keys.con).1 in
          (
            n,
            record k { keys = record (k.keys) { con = c } },
            write_call-terminal stack junk read table waiting linkage buf n k p.screen p.screen_used
                (omega arith),
            CanPlay-prints clock k c (terminal_write-OnlyPrints buf n k.keys.con) p,
            write_more [] buf n k.keys.con k.keys.con (nothing k.keys.con),
          ));
    ticks = λ buf k p.
        (let (r, e, same) = read_call-clock clock buf k lo hi p in
          (
            0,
            buf,
            record k { rtc = r },
            e,
            record {
              screen = p.screen;
              screen_used = p.screen_used;
              ticking = p.ticking;
              ticking_used = p.ticking_used;
              rate = subst (λ f. f (current k) ≤ 1024) (sym same) p.rate;
            },
            nothing k.keys.con,
          ));
    stays = λ k. nothing k.keys.con;
    joins = λ a b k l m v w. Writes-trans a b k.keys.con l.keys.con m.keys.con v w;
  }

  -- The kernel once the clock has been opened as descriptor `fd`, and when its rate is set.
  abbrev clock_open : ℕ → Kernel → Kernel
  clock_open fd k =
      set_entry fd (open_entry rtc_fops minus_one minus_one)
        (record k { rtc = record (tuned read (current k) 1024 k.rtc) { initialized = 1 } })

  abbrev clock_set : ℕ → Kernel → Kernel
  clock_set fd k = record (clock_open fd k) {
    rtc = tuned read (current k) 32 (clock_open fd k).rtc;
  }

  opened_clock : (fd : ℕ) (k : Kernel) → rtc_open read fd k ≡ some (0, clock_open fd k)
  unfolding rtc_open open_clock
  opened_clock fd k = refl

  sys_open-clock :
      (fd : ℕ) (file : Dentry) (k : Kernel)
      → look_up stack junk k (some rtc_name) ≡ (0, some file)
      → file.file_type ≡ 0
      → find_free (get_pcb k).fda 6 2 ≡ some fd
      → sys_open stack junk read (some rtc_name) k ≡ some (fd, clock_open fd k)
  unfolding sys_open
  sys_open-clock fd file k found kind free =
      let o : open_kind stack junk read file.file_type fd (some rtc_name) k
          ≡ some (0, clock_open fd k) =
        unfold open_kind in rw kind (opened_clock fd k) in
      rw (found, free, sys_open) (rw (found, o) refl)

  clock_open-CanPlay : (fd : ℕ) (k : Kernel) → 2 ≤ fd → CanOpen k → CanPlay fd (clock_set fd k)
  clock_open-CanPlay fd k lo o =
      let t1 : (fd == fd) ≡ true = ground arith in
      let t2 : (1 == fd) ≡ false = ground arith in
      let added : FdaEntry = open_entry rtc_fops minus_one minus_one in
      let new : entry (set_entry fd added k) fd ≡ added =
        entry-set_entry fd fd added k ∙ rw t1 refl in
      let old : entry (set_entry fd added k) 1 ≡ entry k 1 =
        entry-set_entry fd 1 added k ∙ rw t2 refl in
      record {
        screen = ap (λ e. e.fops) old ∙ o.screen;
        screen_used = λ z. o.screen_used (sym (ap (λ e. e.flags) old) ∙ z);
        ticking = ap (λ e. e.fops) new;
        ticking_used = λ z. omega (arith, sym (ap (λ e. e.flags) new) ∙ z);
        rate = ground (arith, tuned-terminal_rtc read (current k) 32 (clock_open fd k).rtc);
      }

  write_call-clock :
      (fd : ℕ) (k : Kernel)
      → 2 ≤ fd
      → fd < 8
      → CanPlay fd (clock_set fd k)
      → (kernel_calls stack junk read table waiting linkage).write_call fd
          (dword_at 32)
          4
          (clock_open fd k)
        ≡ some (4, clock_set fd k)
  unfolding kernel_calls sys_write write_kind rtc_write
  write_call-clock fd k lo hi p =
      let t1 : slt fd 1 || slt 7 fd ≡ false = ground arith in
      let t2 : (entry (clock_open fd k) fd).flags == 0 ≡ false = ground (arith, p.ticking_used) in
      rw (t1, t2, p.ticking) refl

  -- pingpong in a process whose descriptor 1 is the terminal and that has a descriptor free, on an
  -- image with the clock under the name "rtc", when the interrupts of the clock go on to come: the
  -- first `n` rounds come to their end, and write to the terminal in each the next letter of the
  -- alphabet, which starts again at A behind Z, as it moves from the left wall to the right one and
  -- back, a line for each column; the walls, the end of the line and the NUL stay in place.
  pub pingpong_main-rounds :
      (n : ℕ) (buf garbage : Memory) (k : Kernel) (file : Dentry)
      → look_up stack junk k (some rtc_name) ≡ (0, some file)
      → file.file_type ≡ 0
      → CanOpen k
      → (buf' : Memory) × (garbage' : Memory) × (k' : Kernel) × (pingpong_main
            (kernel_calls stack junk read table waiting linkage)
            n
            buf
            garbage
            k
          ≡ some (letter n, buf', garbage', k'))
        × IsWorld buf'
        × KernelWrites (rounds n 0) k k'
  unfolding kernel_calls
  pingpong_main-rounds n buf garbage k file found kind o =
      elim (Option-cases (find_free (get_pcb k).fda 6 2)) [
        | inl none_free ↦
            (let f : FoundFree (get_pcb k).fda 6 2 none =
                subst (FoundFree (get_pcb k).fda 6 2) none_free
                  (find_free-FoundFree (get_pcb k).fda 6 2) in
              let (j, lo, hi, z) = o.free in absurd (f j lo hi z))
        | inr (fd, free) ↦
            (let f : FoundFree (get_pcb k).fda 6 2 (some fd) =
                subst (FoundFree (get_pcb k).fda 6 2) free
                  (find_free-FoundFree (get_pcb k).fda 6 2) in
              let play : CanPlay fd (clock_set fd k) = clock_open-CanPlay fd k f.0 o in
              let (b, g, k', e, w, good, sh) =
                pingpong_main-Shown (kernel_calls stack junk read table waiting linkage) fd
                  (CanPlay fd) KernelWrites (clock-IsScreen fd f.0 f.1) n 4 buf garbage k
                  (clock_open fd k) (clock_set fd k) (sys_open-clock fd file k found kind free)
                  (write_call-clock fd k f.0 f.1 play) play in
              (b, g, k', e, w, sh))
      ]
