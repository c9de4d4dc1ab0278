-- ===== src/Boot/Devices.antt =====
-- Which interrupts the calls of entry in student-distrib/kernel.c let through.
use fuzzy_os.Base.{
  Bool, Ports, ap, arith, bit_and, if◌then◌else◌, out_byte, ℕ, ◌%◌, ◌/◌, ◌<◌, ◌==◌, ◌^◌, ◌||◌, ◌∙◌,
  ◌≡◌, ◌≢◌,
}
use fuzzy_os.Boot.{init_devices}
use fuzzy_os.Console.{Console}
use fuzzy_os.Kernel.{Kernel}
use fuzzy_os.Keyboard.{init_keyboard}
use fuzzy_os.Pic.{enable_irq, i8259_init, init_pit}
use fuzzy_os.Pic.Masks.{
  Idle, Idle-out_byte, IsMaskRegister, enable_irq-Idle, enable_irq-mask_bit, i8259_init-Idle,
  i8259_init-mask_bit, mask_bit,
}
use fuzzy_os.Rtc.{Rtc, init_rtc}

module _ (read : Ports → ℕ → ℕ) (mask : IsMaskRegister read) where
  -- No initialisation is under way, and the sixteen mask bits are those of `bits`.
  pub record Masked (l : Ports) (bits : ℕ → ℕ) : Type 0 where
    pub idle : Idle l
    pub mask_bits : (j : ℕ) → j < 16 → mask_bit read l j ≡ bits j

  -- A write to a port of another device.
  pub out_byte-Masked :
      (v q : ℕ) (l : Ports) (bits : ℕ → ℕ)
      → q ≢ 0x20
      → q ≢ 0x21
      → q ≢ 0xA0
      → q ≢ 0xA1
      → Masked l bits
      → Masked (out_byte v q l) bits
  out_byte-Masked v q l bits a b c d h = record {
    idle = Idle-out_byte v q l a c h.idle;
    mask_bits = λ j p.
        ground
          (arith, mask.other 0x21 q (v % 256) l, mask.other 0xA1 q (v % 256) l, h.mask_bits j p);
  }

  enable_irq-Masked :
      (irq : ℕ) (l : Ports) (bits : ℕ → ℕ)
      → irq < 16
      → Masked l bits
      → Masked (enable_irq read irq l) (λ j. if j == irq then 0 else bits j)
  enable_irq-Masked irq l bits small h = record {
    idle = enable_irq-Idle read mask l irq h.idle;
    mask_bits = λ j p.
        enable_irq-mask_bit read mask l irq j small p h.idle
        ∙ ap (λ b. if j == irq then 0 else b) (h.mask_bits j p);
  }

  -- The interrupts of the timer, the keyboard, the second controller and the clock.
  abbrev pub is_used : ℕ → Bool
  is_used j = j == 0 || j == 1 || j == 2 || j == 8

  init_keyboard-Masked :
      (c : Console) (bits : ℕ → ℕ)
      → Masked c.ports bits
      → Masked (init_keyboard read c).ports (λ j. if j == 1 then 0 else bits j)
  unfolding init_keyboard
  init_keyboard-Masked c bits h = enable_irq-Masked 1 c.ports bits (omega arith) h

  init_rtc-Masked :
      (r : Rtc) (bits : ℕ → ℕ)
      → Masked r.ports bits
      → Masked (init_rtc read r).ports (λ j. if j == 8 then 0 else if j == 2 then 0 else bits j)
  unfolding init_rtc
  init_rtc-Masked r bits h = to_clock _ 0x71 _ (omega arith) (omega arith) (
      to_clock 0x8B 0x70 _ (omega arith) (omega arith) (
        to_clock 0x8B 0x70 _ (omega arith) (omega arith) (
          enable_irq-Masked 8 _ _ (omega arith)
            (enable_irq-Masked 2 r.ports bits (omega arith) h))))
    where
      to_clock :
          (v q : ℕ) (l : Ports)
          → 0x21 < q
          → q < 0xA0
          → Masked l (λ j. if j == 8 then 0 else if j == 2 then 0 else bits j)
          → Masked (out_byte v q l) (λ j. if j == 8 then 0 else if j == 2 then 0 else bits j)
      to_clock v q l lo hi m =
          out_byte-Masked v q l _ (omega arith) (omega arith) (omega arith) (omega arith) m

  init_pit-Masked :
      (l : Ports) (bits : ℕ → ℕ)
      → Masked l bits
      → Masked (init_pit read l) (λ j. if j == 0 then 0 else bits j)
  unfolding init_pit
  init_pit-Masked l bits h = enable_irq-Masked 0 _ bits (omega arith) (
      to_timer (1193180 / 2 ^ 8) 0x40 _ (omega arith) (omega arith) (
        to_timer (bit_and 1193180 0xFF) 0x40 _ (omega arith) (omega arith)
          (to_timer 0x36 0x43 l (omega arith) (omega arith) h)))
    where
      to_timer :
          (v q : ℕ) (l : Ports) → 0x21 < q → q < 0xA0 → Masked l bits → Masked (out_byte v q l) bits
      to_timer v q l lo hi m =
          out_byte-Masked v q l bits (omega arith) (omega arith) (omega arith) (omega arith) m

  pub init_devices-Masked :
      (k : Kernel) → Masked (init_devices read k).keys.con.ports (λ j. if is_used j then 0 else 1)
  unfolding init_devices
  init_devices-Masked k =
      let started : Masked (i8259_init k.keys.con.ports) (λ j. 1) = record {
        idle = i8259_init-Idle read mask k.keys.con.ports;
        mask_bits = λ j p. i8259_init-mask_bit read mask k.keys.con.ports j p;
      } in
      let all = init_pit-Masked _ _ (init_rtc-Masked _ _ (init_keyboard-Masked _ _ started)) in
      record { idle = all.idle; mask_bits = λ j p. all.mask_bits j p ∙ ground arith }
