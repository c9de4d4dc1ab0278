-- ===== src/Clib/Radix.antt =====
-- Numerals in a radix, the reference that itoa of student-distrib/lib.c is measured against:
-- the digits of a number, the first one first, and the number that a numeral stands for.
use native.Mathlib.Decide.{dec_lt}
use native.Mathlib.Nat.{div-add-mod', mul-le-mul_left}
use fuzzy_os.Base.{
  List, [], ap, arith, false, if◌then◌else◌, length, length-append, ltb, refl, suc, sym, true, zero,
  ℕ, ◌%◌, ◌*◌, ◌++◌, ◌+◌, ◌-◌, ◌/◌, ◌<◌, ◌==◌, ◌^◌, ◌∙◌, ◌∷◌, ◌≡◌, ◌≢◌, ◌≤◌,
}
use fuzzy_os.Clib.Strings.{digit_char}
use fuzzy_os.Clib.Texts.{IsText, append-IsText}

-- The digits of a number that is not 0, with fuel.
unfoldable pub digits : ℕ → ℕ → ℕ → List ℕ
digits r zero v = []
digits r (suc f) v =
    let rest = digits r f (v / r) in if v == 0 then [] else rest ++ (digit_char (v % r) ∷ [])

-- The numeral of a 32-bit word.
unfoldable pub numeral : ℕ → ℕ → List ℕ
numeral r v = if v == 0 then 48 ∷ [] else digits r 32 v

-- What a digit stands for, and a numeral that is read behind a number already read.
abbrev pub digit_value : ℕ → ℕ
digit_value c = if ltb c 58 then c - 48 else c - 55

abbrev pub read_from : ℕ → ℕ → List ℕ → ℕ
read_from r acc [] = acc
read_from r acc (c ∷ s) = read_from r (acc * r + digit_value c) s

pub digits_zero : (r f : ℕ) → digits r f 0 ≡ []
unfolding digits
digits_zero r zero = refl
digits_zero r (suc f) = refl

pub digits_step :
    (r f v : ℕ) → v ≢ 0 → digits r (suc f) v ≡ digits r f (v / r) ++ (digit_char (v % r) ∷ [])
unfolding digits
digits_step r f v h = let t : v == 0 ≡ false = ground arith in rw t refl

read_from-snoc :
    (r acc c : ℕ) (s : List ℕ)
    → read_from r acc (s ++ (c ∷ [])) ≡ read_from r acc s * r + digit_value c
read_from-snoc r acc c [] = refl
read_from-snoc r acc c (d ∷ s) = read_from-snoc r (acc * r + digit_value d) c s

pub digit_value-digit_char : (i : ℕ) → digit_value (digit_char i) ≡ i
digit_value-digit_char i = ground arith

pub div_halves : (v r : ℕ) → 2 ≤ r → v / r * 2 ≤ v
div_halves v r h = omega (arith, div-add-mod' v r, mul-le-mul_left (v / r) h)

pub div_bound : (v r f : ℕ) → 2 ≤ r → v < 2 ^ suc f → v / r < 2 ^ f
div_bound v r f h l = omega (arith, div_halves v r h, l)

-- The digits of a number stand for the number, when the fuel is enough.
pub read_from-digits : (r f v : ℕ) → 2 ≤ r → v < 2 ^ f → read_from r 0 (digits r f v) ≡ v
unfolding digits
read_from-digits r zero v h l = omega (arith, l)
read_from-digits r (suc f) v h l = elim (dec_lt 0 v) [
  | no n ↦ let t : v == 0 ≡ true = ground arith in rw t (omega arith)
  | yes p ↦ rw (digits_step r f v (omega arith)) (
      rw (read_from-snoc r 0 (digit_char (v % r)) (digits r f (v / r))) (
        rw (read_from-digits r f (v / r) h (div_bound v r f h l), digit_value-digit_char (v % r))
          (div-add-mod' v r)))
]

-- The numeral of a word reads back as the word.
pub read_from-numeral : (r v : ℕ) → 2 ≤ r → v < 2 ^ 32 → read_from r 0 (numeral r v) ≡ v
unfolding numeral
read_from-numeral r v h l = elim (dec_lt 0 v) [
  | no n ↦ let t : v == 0 ≡ true = ground arith in rw t (omega arith)
  | yes p ↦ let t : v == 0 ≡ false = ground arith in rw t (read_from-digits r 32 v h l)
]

-- Once all digits are there, more fuel adds none.
pub digits_more : (r f k v : ℕ) → 2 ≤ r → v < 2 ^ f → f ≤ k → digits r k v ≡ digits r f v
digits_more r zero k v h l m =
    let e : v ≡ 0 = omega (arith, l) in rw e (digits_zero r k ∙ sym (digits_zero r 0))
digits_more r (suc f) zero v h l m = absurd (omega arith)
digits_more r (suc f) (suc k) v h l m = elim (dec_lt 0 v) [
  | no n ↦ let e : v ≡ 0 = omega arith in rw e (digits_zero r (suc k) ∙ sym (digits_zero r (suc f)))
  | yes p ↦
      digits_step r k v (omega arith)
      ∙ ap (λ s. s ++ (digit_char (v % r) ∷ []))
          (digits_more r f k (v / r) h (div_bound v r f h l) (omega arith))
      ∙ sym (digits_step r f v (omega arith))
]

pub digits-IsText : (r f v : ℕ) → IsText (digits r f v)
unfolding digits
digits-IsText r zero v = tt
digits-IsText r (suc f) v = elim (dec_lt 0 v) [
  | no n ↦ let t : v == 0 ≡ true = ground arith in rw t tt
  | yes p ↦ rw (digits_step r f v (omega arith)) (
      append-IsText (digits r f (v / r)) (digit_char (v % r) ∷ []) (digits-IsText r f (v / r))
        (ground arith, tt))
]

pub numeral-IsText : (r v : ℕ) → IsText (numeral r v)
unfolding numeral
numeral-IsText r v = elim (dec_lt 0 v) [
  | no n ↦ let t : v == 0 ≡ true = ground arith in rw t (ground arith, tt)
  | yes p ↦ let t : v == 0 ≡ false = ground arith in rw t (digits-IsText r 32 v)
]

pub length-digits_le : (r f v : ℕ) → length (digits r f v) ≤ f
unfolding digits
length-digits_le r zero v = omega arith
length-digits_le r (suc f) v = elim (dec_lt 0 v) [
  | no n ↦ let t : v == 0 ≡ true = ground arith in rw t (omega arith)
  | yes p ↦ rw (digits_step r f v (omega arith)) (
      omega (
        arith,
        length-append (digits r f (v / r)) (digit_char (v % r) ∷ []),
        length-digits_le r f (v / r),
      ))
]

pub length-numeral_le : (r v : ℕ) → length (numeral r v) ≤ 32
unfolding numeral
length-numeral_le r v = elim (dec_lt 0 v) [
  | no n ↦ let t : v == 0 ≡ true = ground arith in rw t (omega arith)
  | yes p ↦ let t : v == 0 ≡ false = ground arith in rw t (length-digits_le r 32 v)
]
