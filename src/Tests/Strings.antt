-- ===== src/Tests/Strings.antt =====
-- The string and memory routines (student-distrib/lib.c), the interrupt controller and the clock.
use fuzzy_os.Base.{
  Ports, [], arith, bit, if◌then◌else◌, none, refl, some, ℕ, ◌%◌, ◌&&◌, ◌+◌, ◌-◌, ◌<◌, ◌==◌, ◌∷◌,
  ◌≡◌, ◌≢◌, ◌≤◌,
}
use fuzzy_os.Clib.Numerals.{strrev_lem}
use fuzzy_os.Clib.Strings.{strrev}
use fuzzy_os.Pic.Masks.{IsMaskRegister, expected}
use fuzzy_os.Rtc.{Rtc, rtc_read, rtc_write}
use fuzzy_os.Rtc.Rates.{rtc_write-rtc_read}
use fuzzy_os.Tests.Machine.{disk, no_ports, rtc0}

strrev_example : strrev disk 65 0 ≡ 97
strrev_example = strrev_lem disk 65 0

-- The mask registers: the start of an initialisation clears one, and its words do not go there.
abbrev pub masks : Ports → ℕ → ℕ
masks [] p = 0
masks ((q, v) ∷ l) p =
    if q + 1 == p && bit v 4 == 1
    then 0
    else if q == p && expected p l == 0
    then v % 256
    else masks l p

masks-byte : (p : ℕ) (l : Ports) → masks l p < 256
masks-byte p [] = omega arith
masks-byte p ((q, v) ∷ l) = ground (arith, masks-byte p l)

pub masks-IsMaskRegister : IsMaskRegister masks
masks-IsMaskRegister = record {
  latest = λ p v l h b e. ground arith;
  other = λ p q v l h n m. ground arith;
  byte = masks-byte;
}

rtc_write-rtc_read_example :
    (r' : Rtc) × (rtc_write no_ports 0 (some 32) 4 rtc0 ≡ some (4, r'))
    × ((u : ℕ) → u ≢ 0 → r'.terminal_rtc u ≡ rtc0.terminal_rtc u)
    × ((ticks : ℕ) → ticks < 16 → rtc_read 0 ticks r' ≡ none)
    × ((ticks : ℕ) → 16 ≤ ticks → (r'' : Rtc) × (rtc_read 0 ticks r' ≡ some (ticks - 16, r'')))
rtc_write-rtc_read_example = rtc_write-rtc_read no_ports 0 32 rtc0 refl (omega arith) (omega arith)
