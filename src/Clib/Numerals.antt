-- ===== src/Clib/Numerals.antt =====
-- strrev of student-distrib/lib.c, by which itoa turns the digits of a numeral round.
use native.Mathlib.Decide.{dec_lt}
use fuzzy_os.Base.{
  Memory, ap, arith, false, if◌then◌else◌, leb, ltb, refl, suc, sym, true, update, zero, ℕ, ◌&&◌,
  ◌+◌, ◌-◌, ◌<◌, ◌∙◌, ◌≡◌, ◌≤◌,
}
use fuzzy_os.Clib.Strings.{strrev, strrev_loop}

-- What the loop does between two indices.
abbrev turned : Memory → ℕ → ℕ → Memory
turned s b e y = if leb b y && leb y e then s (b + e - y) else s y

abbrev swapped : Memory → ℕ → ℕ → Memory
swapped s b e = update (update s e (s b)) b (s e)

turned-swapped :
    (s : Memory) (b e y : ℕ) → b < e → turned (swapped s b e) (b + 1) (e - 1) y ≡ turned s b e y
turned-swapped s b e y h = ground arith

turned-short : (s : Memory) (b e y : ℕ) → e ≤ b → turned s b e y ≡ s y
turned-short s b e y h = ground arith

strrev_loop-step :
    (f : ℕ) (s : Memory) (b e : ℕ)
    → b < e
    → strrev_loop (suc f) s b e ≡ strrev_loop f (swapped s b e) (b + 1) (e - 1)
unfolding strrev_loop
strrev_loop-step f s b e h = let t : ltb b e ≡ true = ground arith in rw t refl

strrev_loop-stop : (f : ℕ) (s : Memory) (b e : ℕ) → e ≤ b → strrev_loop f s b e ≡ s
unfolding strrev_loop
strrev_loop-stop zero s b e h = refl
strrev_loop-stop (suc f) s b e h = let t : ltb b e ≡ false = ground arith in rw t refl

strrev_loop_lem :
    (f : ℕ) (s : Memory) (b e y : ℕ) → e ≤ b + f → strrev_loop f s b e y ≡ turned s b e y
strrev_loop_lem zero s b e y h =
    ap (λ m. m y) (strrev_loop-stop 0 s b e (omega arith))
    ∙ sym (turned-short s b e y (omega arith))
strrev_loop_lem (suc f) s b e y h = elim (dec_lt b e) [
  | no n ↦
      ap (λ m. m y) (strrev_loop-stop (suc f) s b e (omega arith))
      ∙ sym (turned-short s b e y (omega arith))
  | yes l ↦
      ap (λ m. m y) (strrev_loop-step f s b e l)
      ∙ strrev_loop_lem f (swapped s b e) (b + 1) (e - 1) y (omega arith)
      ∙ turned-swapped s b e y l
]

-- strrev turns the `n` characters of a text round, and leaves what stands behind them.
pub strrev_lem : (s : Memory) (n y : ℕ) → strrev s n y ≡ (if ltb y n then s (n - 1 - y) else s y)
unfolding strrev
strrev_lem s n y = strrev_loop_lem n s 0 (n - 1) y (omega arith) ∙ turned_all s n y
  where
    turned_all :
        (s : Memory) (n y : ℕ) → turned s 0 (n - 1) y ≡ (if ltb y n then s (n - 1 - y) else s y)
    turned_all s n y = ground arith

-- A text that has been turned round twice is the text.
pub strrev-strrev : (s : Memory) (n y : ℕ) → strrev (strrev s n) n y ≡ s y
strrev-strrev s n y = elim (dec_lt y n) [
  | yes l ↦ strrev_lem (strrev s n) n y ∙ ground (arith, strrev_lem s n (n - 1 - y))
  | no l ↦ strrev_lem (strrev s n) n y ∙ ground (arith, strrev_lem s n y)
]
