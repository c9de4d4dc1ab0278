-- ===== src/Rtc.antt =====
-- student-distrib/rtc.c, the real-time clock and the virtual rate of each terminal. The descriptor
-- that RTC_open fills stands in Files. `read` is what `inb` gives; `none` is a divide error.
pub mod Rates
use mathlib.Core.Option
use fuzzy_os.Base.{
  Option, Ports, Word, add32, bit_and, bit_or, if◌then◌else◌, map, minus_one, none, not, out_byte,
  slt, some, suc, update, zero, ℕ, ◌%◌, ◌/◌, ◌==◌, ◌||◌,
}
use fuzzy_os.Pic.{enable_irq, send_eoi}

-- `rtc_interrupt_flag`, `terminal_rtc`, `rtc_counter`, `rtc_initialized` and the ports
pub record Rtc : Type 0 where
  pub interrupt_flag : ℕ
  pub terminal_rtc : ℕ → Word
  pub counter : ℕ → Word
  pub initialized : ℕ
  pub ports : Ports

abbrev pub max_freq : ℕ
max_freq = 1024

-- the switch of change_rtc_freq
unfoldable pub rate_of : ℕ → ℕ
rate_of freq =
    if freq == 2
    then 0xF
    else if freq == 4
    then 0xE
    else if freq == 8
    then 0xD
    else if freq == 16
    then 0xC
    else if freq == 32
    then 0xB
    else if freq == 64
    then 0xA
    else if freq == 128
    then 0x9
    else if freq == 256
    then 0x8
    else if freq == 512
    then 0x7
    else if freq == 1024
    then 0x6
    else 0xF

-- rtc_irq; the byte that `inb` reads is dropped.
unfoldable pub rtc_irq : Rtc → Rtc
rtc_irq r = record r { ports = send_eoi 8 (out_byte 0x0C 0x70 r.ports); interrupt_flag = 1 }

module _ (read : Ports → ℕ → ℕ) where
  -- init_rtc
  unfoldable pub init_rtc : Rtc → Rtc
  init_rtc r =
      let selected : Ports = out_byte 0x8B 0x70 (enable_irq read 8 (enable_irq read 2 r.ports)) in
      record r {
        ports = out_byte (bit_or (read selected 0x71) 0x40) 0x71 (out_byte 0x8B 0x70 selected);
        interrupt_flag = 0;
      }

  -- the writes to register A
  unfoldable pub program_rate : ℕ → Ports → Ports
  program_rate rate ports =
      let selected : Ports = out_byte 0x8A 0x70 ports in
      out_byte (bit_or (bit_and (read selected 0x71) 0xF0) rate) 0x71 (out_byte 0x8A 0x70 selected)

  -- change_rtc_freq of terminal `t`, once `freq` is at most 1024
  unfoldable pub set_freq : ℕ → Word → Rtc → Option Rtc
  unfolding program_rate
  set_freq t freq r =
      if freq == 0
      then none
      else (let r' : Rtc = record r { terminal_rtc = update r.terminal_rtc t (max_freq / freq) } in
          some (
            if not (r.initialized == 0)
            then r'
            else record r' { ports = program_rate (rate_of freq) r.ports }))

  -- change_rtc_freq, for the executing terminal `t`
  unfoldable pub change_rtc_freq : ℕ → Word → Rtc → Option Rtc
  unfolding set_freq
  change_rtc_freq t freq r =
      if freq % 2 == 1 || slt freq 0
      then some r
      else set_freq t (if slt max_freq freq then max_freq else freq) r

  -- RTC_open, but for the descriptor
  unfoldable pub open_clock : ℕ → Rtc → Option Rtc
  unfolding change_rtc_freq
  open_clock t r =
      Option.map {A = Rtc} (λ r'. record r' { initialized = 1 }) (change_rtc_freq t 1024 r)

  -- RTC_write; `buf` is the word that the pointer points to, and `none` is NULL.
  unfoldable pub rtc_write : ℕ → Option Word → Word → Rtc → Option (Word × Rtc)
  unfolding change_rtc_freq
  rtc_write t buf nbytes r = if not (nbytes == 4) then some (minus_one, r) else elim buf [
    | none ↦ some (minus_one, r)
    | some freq ↦ Option.map (λ r'. (4, r')) (change_rtc_freq t freq r)
  ]

-- The loop of RTC_read for terminal `t`, while `ticks` interrupts arrive. Each round waits for one;
-- `none` is a read that still waits. The result has the interrupts that are left over.
unfoldable pub wait_loop : ℕ → ℕ → Rtc → Option (ℕ × Rtc)
wait_loop t zero r = if slt (r.counter t) (r.terminal_rtc t / 2) then none else some (0, r)
wait_loop t (suc ticks) r =
    let rest =
      wait_loop t ticks
        (record r { interrupt_flag = 0; counter = update r.counter t (add32 (r.counter t) 1) }) in
    if slt (r.counter t) (r.terminal_rtc t / 2) then rest else some (suc ticks, r)

-- RTC_read, with its result 0 left out
unfoldable pub rtc_read : ℕ → ℕ → Rtc → Option (ℕ × Rtc)
unfolding wait_loop
rtc_read t ticks r =
    wait_loop t ticks (record r { interrupt_flag = 0; counter = update r.counter t 0 })
