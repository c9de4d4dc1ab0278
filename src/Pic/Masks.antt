-- ===== src/Pic/Masks.antt =====
-- What enable_irq, disable_irq and send_eoi of student-distrib/i8259.c mean for the controllers.
use fuzzy_os.Base.{
  Bool, Ports, [], arith, bit, bit_or, every_below, every_below_sound, if◌then◌else◌, leb, ltb,
  out_byte, refl, true, ℕ, ◌%◌, ◌&&◌, ◌+◌, ◌-◌, ◌<◌, ◌==◌, ◌^◌, ◌∷◌, ◌≡◌, ◌≢◌, ◌⊎◌,
}
use fuzzy_os.Pic.{clear_bit, disable_irq, enable_irq, i8259_init, send_eoi, set_bit}

-- How many words the initialisation of the controller with the data port `p` still expects: the
-- word ICW1 on the command port before it, with bit 4 set, begins one, and says in bit 1 that ICW3 is
-- left out and in bit 0 that ICW4 follows.
abbrev pub expected : ℕ → Ports → ℕ
expected p [] = 0
expected p ((q, v) ∷ l) =
    if q + 1 == p && bit v 4 == 1
    then 1 + (if bit v 1 == 1 then 0 else 1) + (if bit v 0 == 1 then 1 else 0)
    else if q == p
    then expected p l - 1
    else expected p l

-- The mask register of an 8259 as its data sheet describes it: outside of an initialisation a write
-- to the data port sets the register, and reading the data port gives it; a write to a port of
-- another device does not change it. What the register holds during an initialisation is left open.
pub record IsMaskRegister (read : Ports → ℕ → ℕ) : Type 0 where
  pub latest :
      (p v : ℕ) (l : Ports)
      → (p ≡ 0x21) ⊎ (p ≡ 0xA1)
      → v < 256
      → expected p l ≡ 0
      → read ((p, v) ∷ l) p ≡ v
  pub other :
      (p q v : ℕ) (l : Ports)
      → (p ≡ 0x21) ⊎ (p ≡ 0xA1)
      → q ≢ p
      → q + 1 ≢ p
      → read ((q, v) ∷ l) p ≡ read l p
  pub byte : (p : ℕ) (l : Ports) → read l p < 256

-- No initialisation of the two controllers is under way.
abbrev pub Idle : Ports → Type 0
Idle l = (expected 0x21 l ≡ 0) × (expected 0xA1 l ≡ 0)

pub Idle-out_byte : (v q : ℕ) (l : Ports) → q ≢ 0x20 → q ≢ 0xA0 → Idle l → Idle (out_byte v q l)
Idle-out_byte v q l n m h = ground (arith, h)

-- `f x n` is the byte `x` with bit `n` set to `v`: a test of every byte, bit and bit looked at.
abbrev sets_bits : (ℕ → ℕ → ℕ) → ℕ → ℕ → ℕ → Bool
sets_bits f v x n = every_below 8 (λ j. bit (f x n) j == (if j == n then v else bit x j))

abbrev sets_row : (ℕ → ℕ → ℕ) → ℕ → ℕ → Bool
sets_row f v x = every_below 8 (λ n. (f x n % 256 == f x n) && sets_bits f v x n)

clear_bit_table : every_below 256 (sets_row clear_bit 0) ≡ true
unfolding every_below clear_bit
clear_bit_table = refl

set_bit_table : every_below 256 (sets_row set_bit 1) ≡ true
unfolding every_below set_bit
set_bit_table = refl

ones_table : every_below 8 (λ i. bit 0xff i == 1) ≡ true
unfolding every_below
ones_table = refl

table_lem :
    (f : ℕ → ℕ → ℕ) (v x n j : ℕ)
    → every_below 256 (sets_row f v) ≡ true
    → x < 256
    → n < 8
    → j < 8
    → (f x n % 256 ≡ f x n) × (bit (f x n) j ≡ (if j == n then v else bit x j))
table_lem f v x n j table hx hn hj = ground (
  arith,
  every_below_sound 256 (sets_row f v) x table hx,
  λ (t : sets_row f v x ≡ true). every_below_sound 8 _ n t hn,
  λ (t : sets_bits f v x n ≡ true). every_below_sound 8 _ j t hj,
)

-- Bit `irq` of the two mask registers: a set bit keeps the interrupt out.
abbrev pub mask_bit : (Ports → ℕ → ℕ) → Ports → ℕ → ℕ
mask_bit read ports irq =
    if leb 8 irq then bit (read ports 0xA1) (irq - 8) else bit (read ports 0x21) irq

module _ (read : Ports → ℕ → ℕ) (mask : IsMaskRegister read) where
  -- enable_irq clears the mask bit of its own interrupt, and no other of the sixteen.
  pub enable_irq-mask_bit :
      (ports : Ports) (irq j : ℕ)
      → irq < 16
      → j < 16
      → Idle ports
      → mask_bit read (enable_irq read irq ports) j
        ≡ (if j == irq then 0 else mask_bit read ports j)
  unfolding enable_irq
  enable_irq-mask_bit ports irq j h hj idle = ground (
    arith,
    idle,
    mask.byte 0x21 ports,
    mask.byte 0xA1 ports,
    mask.latest 0x21 (clear_bit (read ports 0x21 % 2 ^ 16) irq % 256) ports,
    mask.latest 0xA1 (clear_bit (read ports 0xA1 % 2 ^ 16) (irq - 8) % 256) ports,
    mask.other 0x21 0xA1 (clear_bit (read ports 0xA1 % 2 ^ 16) (irq - 8) % 256) ports,
    mask.other 0xA1 0x21 (clear_bit (read ports 0x21 % 2 ^ 16) irq % 256) ports,
    table_lem clear_bit 0 (read ports 0x21 % 2 ^ 16) irq j clear_bit_table,
    table_lem clear_bit 0 (read ports 0xA1 % 2 ^ 16) (irq - 8) (j - 8) clear_bit_table,
  )

  -- disable_irq sets the mask bit of its own interrupt, and no other of the sixteen.
  pub disable_irq-mask_bit :
      (ports : Ports) (irq j : ℕ)
      → irq < 16
      → j < 16
      → Idle ports
      → mask_bit read (disable_irq read irq ports) j
        ≡ (if j == irq then 1 else mask_bit read ports j)
  unfolding disable_irq
  disable_irq-mask_bit ports irq j h hj idle = ground (
    arith,
    idle,
    mask.byte 0x21 ports,
    mask.byte 0xA1 ports,
    mask.latest 0x21 (set_bit (read ports 0x21 % 2 ^ 16) irq % 256) ports,
    mask.latest 0xA1 (set_bit (read ports 0xA1 % 2 ^ 16) (irq - 8) % 256) ports,
    mask.other 0x21 0xA1 (set_bit (read ports 0xA1 % 2 ^ 16) (irq - 8) % 256) ports,
    mask.other 0xA1 0x21 (set_bit (read ports 0x21 % 2 ^ 16) irq % 256) ports,
    table_lem set_bit 1 (read ports 0x21 % 2 ^ 16) irq j set_bit_table,
    table_lem set_bit 1 (read ports 0xA1 % 2 ^ 16) (irq - 8) (j - 8) set_bit_table,
  )

  pub enable_irq-Idle : (ports : Ports) (irq : ℕ) → Idle ports → Idle (enable_irq read irq ports)
  unfolding enable_irq
  enable_irq-Idle ports irq idle = ground (
    arith,
    Idle-out_byte (clear_bit (read ports 0xA1 % 2 ^ 16) (irq - 8)) 0xA1 ports,
    Idle-out_byte (clear_bit (read ports 0x21 % 2 ^ 16) irq) 0x21 ports,
  )

  pub i8259_init-Idle : (ports : Ports) → Idle (i8259_init ports)
  unfolding i8259_init
  i8259_init-Idle ports = (refl, refl)

  -- After i8259_init every interrupt of the sixteen is masked.
  pub i8259_init-mask_bit :
      (ports : Ports) (j : ℕ) → j < 16 → mask_bit read (i8259_init ports) j ≡ 1
  unfolding i8259_init
  i8259_init-mask_bit ports j h = ground (
    arith,
    mask.latest 0xA1 0xff (out_byte 0xff 0x21 (rest ports)),
    mask.latest 0x21 0xff (rest ports),
    mask.other 0x21 0xA1 0xff (out_byte 0xff 0x21 (rest ports)),
    all_ones j,
    all_ones (j - 8),
  )
    where
      rest : Ports → Ports
      rest p = out_byte 0x01 0xA1 (
          out_byte 0x02 0xA1 (
            out_byte 0x28 0xA1 (
              out_byte 0x11 0xA0 (
                out_byte 0x01 0x21
                  (out_byte 0x04 0x21 (out_byte 0x20 0x21 (out_byte 0x11 0x20 p)))))))

      all_ones : (i : ℕ) → i < 8 → bit 0xff i ≡ 1
      all_ones i l = ground (arith, every_below_sound 8 (λ i. bit 0xff i == 1) i ones_table l)

eoi_table : every_below 8 (λ n. bit_or 0x60 n == 0x60 + n) ≡ true
unfolding every_below
eoi_table = refl

-- send_eoi sends the specific end-of-interrupt byte, 0x60 and the line, to the master; for the
-- interrupts of the slave it sends that to the slave, and then the one for line 2 to the master.
pub send_eoi_lem :
    (irq : ℕ) (ports : Ports)
    → irq < 16
    → send_eoi irq ports ≡ (
        if ltb irq 8
        then (0x20, 0x60 + irq) ∷ ports
        else (0x20, 0x62) ∷ (0xA0, 0x60 + (irq - 8)) ∷ ports)
unfolding send_eoi
send_eoi_lem irq ports h = ground (
  arith,
  every_below_sound 8 (λ n. bit_or 0x60 n == 0x60 + n) irq eoi_table,
  every_below_sound 8 (λ n. bit_or 0x60 n == 0x60 + n) (irq - 8) eoi_table,
)
