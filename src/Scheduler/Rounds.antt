-- ===== src/Scheduler/Rounds.antt =====
-- The order in which student-distrib/scheduler.c takes the terminals.
use mathlib.Core.Path.{ap₂}
use fuzzy_os.Base.{
  Word, ap, arith, false, minus_one, refl, update, ℕ, ◌%◌, ◌+◌, ◌<◌, ◌==◌, ◌∙◌, ◌≡◌, ◌≢◌,
}
use fuzzy_os.Display.{set_execute_term}
use fuzzy_os.Kernel.{current}
use fuzzy_os.Process.{Frame}
use fuzzy_os.Scheduler.{
  Scheduler, after_scheduler, end_timer, pit_irq, resumes, save_registers, scheduler,
  switch_terminal,
}

-- All three shells have been started.
abbrev pub IsBooted : Word → Type 0
IsBooted pid = (pid ≢ minus_one) × (pid ≢ 0) × (pid ≢ 1)

scheduler-resumes :
    (f : Frame) (table esp ebp : Word) (s : Scheduler)
    → IsBooted s.kernel.pid
    → let s' : Scheduler = save_registers esp ebp s in
      let t : ℕ = (current s.kernel + 1) % 3 in
      scheduler f table esp ebp s
      ≡ resumes
          (s'.terminal_esp t)
          (s'.terminal_ebp t)
          (record s' { kernel = switch_terminal table s.kernel })
unfolding scheduler switch_terminal set_execute_term
scheduler-resumes f table esp ebp s b =
    let e0 : (s.kernel.pid == minus_one) ≡ false = ground (arith, b.0) in
    let e1 : (s.kernel.pid == 0) ≡ false = ground (arith, b.1) in
    let e2 : (s.kernel.pid == 1) ≡ false = ground (arith, b.2) in rw (e0, e1, e2) refl

pit_irq-resumes :
    (f : Frame) (table esp ebp : Word) (s : Scheduler)
    → IsBooted s.kernel.pid
    → let s' : Scheduler = save_registers esp ebp s in
      let t : ℕ = (current s.kernel + 1) % 3 in
      pit_irq f table esp ebp s
      ≡ resumes
          (s'.terminal_esp t)
          (s'.terminal_ebp t)
          (record s' { kernel = end_timer (switch_terminal table (end_timer s.kernel)) })
unfolding pit_irq save_registers
pit_irq-resumes f table esp ebp s b =
    ap after_scheduler
      (scheduler-resumes f table esp ebp (record s { kernel = end_timer s.kernel }) b)

-- Once the three shells run, three timer interrupts in a row take the three terminals in turn: the
-- first two go to the two others, and the third comes back to the terminal that ran, with the stack
-- and the frame pointer that it had when the first one came.
pub round_robin :
    (f : Frame) (table : Word) (esp ebp : ℕ → Word) (s : Scheduler)
    → current s.kernel < 3
    → IsBooted s.kernel.pid
    → (s1 : Scheduler) × (s2 : Scheduler) × (s3 : Scheduler) × ((p : Word) × (q : Word) × (pit_irq f
            table
            (esp 0)
            (ebp 0)
            s
          ≡ resumes p q s1))
      × ((p : Word) × (q : Word) × (pit_irq f table (esp 1) (ebp 1) s1 ≡ resumes p q s2))
      × (pit_irq f table (esp 2) (ebp 2) s2 ≡ resumes (esp 0) (ebp 0) s3)
      × (current s1.kernel ≢ current s.kernel)
      × (current s2.kernel ≢ current s.kernel)
      × (current s2.kernel ≢ current s1.kernel)
      × (current s3.kernel ≡ current s.kernel)
unfolding save_registers switch_terminal set_execute_term
round_robin f table esp ebp s t b =
    let turn : Word → Word → Scheduler → Scheduler = λ e f s. record (save_registers e f s) {
      kernel = end_timer (switch_terminal table (end_timer s.kernel));
    } in
    let s1 : Scheduler = turn (esp 0) (ebp 0) s in
    let s2 : Scheduler = turn (esp 1) (ebp 1) s1 in
    let s3 : Scheduler = turn (esp 2) (ebp 2) s2 in
    (
      s1,
      s2,
      s3,
      (_, _, pit_irq-resumes f table (esp 0) (ebp 0) s b),
      (_, _, pit_irq-resumes f table (esp 1) (ebp 1) s1 b),
      pit_irq-resumes f table (esp 2) (ebp 2) s2 b
          ∙ ap₂ (λ p q. resumes p q s3)
              (kept s.terminal_esp (current s.kernel) (esp 0) (esp 1) (esp 2) t)
              (kept s.terminal_ebp (current s.kernel) (ebp 0) (ebp 1) (ebp 2) t),
      omega arith,
      omega arith,
      omega arith,
      omega arith,
    )
  where
    kept :
        (g : ℕ → Word) (a u v w : ℕ)
        → a < 3
        → update
            (update (update g a u) ((a + 1) % 3) v)
            (((a + 1) % 3 + 1) % 3)
            w
            ((((a + 1) % 3 + 1) % 3 + 1) % 3)
          ≡ u
    kept g a u v w h = ground arith
