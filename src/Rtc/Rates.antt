-- ===== src/Rtc/Rates.antt =====
-- The rates of student-distrib/rtc.c: what is programmed, and how long a read waits.
use mathlib.Core.Path.{subst}
use fuzzy_os.Base.{
  Option, Ports, add32, arith, every_below, every_below_sound, if◌then◌else◌, none, not, refl, some,
  suc, true, update, zero, ℕ, ◌%◌, ◌+◌, ◌-◌, ◌/◌, ◌<◌, ◌==◌, ◌^◌, ◌≡◌, ◌≢◌, ◌≤◌,
}
use fuzzy_os.Rtc.{
  Rtc, change_rtc_freq, program_rate, rate_of, rtc_read, rtc_write, set_freq, wait_loop,
}

rates_table : every_below 10 (λ k. 32768 / 2 ^ (rate_of (2 ^ (k + 1)) - 1) == 2 ^ (k + 1)) ≡ true
unfolding every_below rate_of
rates_table = refl

-- For the ten powers of two from 2 to 1024 the rate code stands for the frequency, by the formula
-- of the clock's data sheet: 32768 shifted right by the code less one.
pub rate_of_lem : (k : ℕ) → k < 10 → 32768 / 2 ^ (rate_of (2 ^ (k + 1)) - 1) ≡ 2 ^ (k + 1)
rate_of_lem k h = ground (
  arith,
  every_below_sound 10 (λ k. 32768 / 2 ^ (rate_of (2 ^ (k + 1)) - 1) == 2 ^ (k + 1)) k rates_table
      h,
)

-- A wait of terminal `t` that has ended with `left` interrupts to spare.
abbrev Waited : ℕ → ℕ → Rtc → Option (ℕ × Rtc) → Type 0
Waited t left r none = ⊥
Waited t left r (some (n, r')) =
    (n ≡ left) × (r'.counter t ≡ r.terminal_rtc t / 2) × (r'.terminal_rtc ≡ r.terminal_rtc)

-- one round of the loop
abbrev ticked : ℕ → Rtc → Rtc
ticked t r = record r { interrupt_flag = 0; counter = update r.counter t (add32 (r.counter t) 1) }

wait_loop_short :
    (t ticks : ℕ) (r : Rtc)
    → r.terminal_rtc t < 2 ^ 31
    → ticks + r.counter t < r.terminal_rtc t / 2
    → wait_loop t ticks r ≡ none
unfolding wait_loop
wait_loop_short t zero r l h = ground arith
wait_loop_short t (suc ticks) r l h = ground (arith, wait_loop_short t ticks (ticked t r))

wait_loop_long :
    (t ticks : ℕ) (r : Rtc)
    → r.terminal_rtc t < 2 ^ 31
    → r.counter t ≤ r.terminal_rtc t / 2
    → r.terminal_rtc t / 2 ≤ ticks + r.counter t
    → Waited t (ticks + r.counter t - r.terminal_rtc t / 2) r (wait_loop t ticks r)
unfolding wait_loop
wait_loop_long t zero r l c h = ground arith
wait_loop_long t (suc ticks) r l c h = ground (arith, wait_loop_long t ticks (ticked t r))

-- RTC_read waits for exactly half of the terminal's divisor in interrupts: with fewer it is still
-- waiting, and with as many or more it has returned and left the rest.
pub rtc_read_lem :
    (t ticks : ℕ) (r : Rtc)
    → r.terminal_rtc t < 2 ^ 31
    → (ticks < r.terminal_rtc t / 2 → rtc_read t ticks r ≡ none)
      × (r.terminal_rtc t / 2 ≤ ticks
          → (r' : Rtc) × (rtc_read t ticks r ≡ some (ticks - r.terminal_rtc t / 2, r')))
unfolding rtc_read
rtc_read_lem t ticks r l = (
  λ h. ground (arith, wait_loop_short t ticks start),
  λ h.
      result (wait_loop t ticks start)
        (wait_loop_long t ticks start l (ground arith) (ground arith)),
)
  where
    start : Rtc
    start = record r { interrupt_flag = 0; counter = update r.counter t 0 }

    result :
        (o : Option (ℕ × Rtc))
        → Waited t (ticks + start.counter t - r.terminal_rtc t / 2) start o
        → (r' : Rtc) × (o ≡ some (ticks - r.terminal_rtc t / 2, r'))
    result none w = absurd w
    result (some (n, r')) w = (r', ground arith)

-- The same wait leaves the rates of the terminals alone.
pub rtc_read-terminal_rtc :
    (t ticks : ℕ) (r : Rtc)
    → r.terminal_rtc t < 2 ^ 31
    → r.terminal_rtc t / 2 ≤ ticks
    → (n : ℕ) × (r' : Rtc) × (rtc_read t ticks r ≡ some (n, r'))
      × (r'.terminal_rtc ≡ r.terminal_rtc)
unfolding rtc_read
rtc_read-terminal_rtc t ticks r l h =
    kept (wait_loop t ticks start) (wait_loop_long t ticks start l (ground arith) (ground arith))
  where
    start : Rtc
    start = record r { interrupt_flag = 0; counter = update r.counter t 0 }

    kept :
        (o : Option (ℕ × Rtc))
        → Waited t (ticks + start.counter t - r.terminal_rtc t / 2) start o
        → (n : ℕ) × (r' : Rtc) × (o ≡ some (n, r')) × (r'.terminal_rtc ≡ r.terminal_rtc)
    kept none w = absurd w
    kept (some (n, r')) w = (n, r', refl, w.2)

-- What change_rtc_freq leaves for an even frequency from 2 to 1024.
abbrev pub tuned : (Ports → ℕ → ℕ) → ℕ → ℕ → Rtc → Rtc
tuned read t f r =
    let r1 : Rtc = record r { terminal_rtc = update r.terminal_rtc t (1024 / f) } in
    if not (r.initialized == 0)
    then r1
    else record r1 { ports = program_rate read (rate_of f) r.ports }

pub change_rtc_freq-tuned :
    (read : Ports → ℕ → ℕ) (t f : ℕ) (r : Rtc)
    → f % 2 ≡ 0
    → 0 < f
    → f ≤ 1024
    → change_rtc_freq read t f r ≡ some (tuned read t f r)
unfolding change_rtc_freq set_freq
change_rtc_freq-tuned read t f r e p l = ground arith

pub tuned-terminal_rtc :
    (read : Ports → ℕ → ℕ) (t f : ℕ) (r : Rtc)
    → (tuned read t f r).terminal_rtc ≡ update r.terminal_rtc t (1024 / f)
tuned-terminal_rtc read t f r = ground arith

-- A write of an even frequency from 2 to 1024, a power of two or not, sets the divisor of the
-- executing terminal and of no other, so that a read then waits for 1024 / f / 2 interrupts.
pub rtc_write-rtc_read :
    (read : Ports → ℕ → ℕ) (t f : ℕ) (r : Rtc)
    → f % 2 ≡ 0
    → 0 < f
    → f ≤ 1024
    → (r' : Rtc) × (rtc_write read t (some f) 4 r ≡ some (4, r'))
      × ((u : ℕ) → u ≢ t → r'.terminal_rtc u ≡ r.terminal_rtc u)
      × ((ticks : ℕ) → ticks < 1024 / f / 2 → rtc_read t ticks r' ≡ none)
      × ((ticks : ℕ)
          → 1024 / f / 2 ≤ ticks
          → (r'' : Rtc) × (rtc_read t ticks r' ≡ some (ticks - 1024 / f / 2, r'')))
unfolding rtc_write
rtc_write-rtc_read read t f r e p l =
    let r' = tuned read t f r in
    let d : r'.terminal_rtc t ≡ 1024 / f = ground (arith, tuned-terminal_rtc read t f r) in
    let wait : (ticks : ℕ)
        → (ticks < r'.terminal_rtc t / 2 → rtc_read t ticks r' ≡ none)
          × (r'.terminal_rtc t / 2 ≤ ticks
              → (r'' : Rtc) × (rtc_read t ticks r' ≡ some (ticks - r'.terminal_rtc t / 2, r''))) =
      λ ticks. rtc_read_lem t ticks r' (omega arith) in
    (
      r',
      ground (arith, change_rtc_freq-tuned read t f r e p l),
      λ u n. ground (arith, tuned-terminal_rtc read t f r),
      λ ticks h. (wait ticks).0 (omega arith),
      λ ticks h.
          subst (λ q. (r'' : Rtc) × (rtc_read t ticks r' ≡ some (ticks - q / 2, r''))) d
            ((wait ticks).1 (omega arith)),
    )

-- A write of the frequency 0 passes the test for odd and negative values and divides by it.
pub rtc_write_zero : (read : Ports → ℕ → ℕ) (t : ℕ) (r : Rtc) → rtc_write read t (some 0) 4 r ≡ none
unfolding rtc_write change_rtc_freq set_freq
rtc_write_zero read t r = refl
