-- ===== src/Console/Padding.antt =====
-- The alternate hexadecimal form of printf of student-distrib/lib.c: eight digits.
use native.Mathlib.Decide.{dec_lt}
use fuzzy_os.Base.{
  List, Memory, Word, [], ap, arith, false, get_or, if◌then◌else◌, leb, length, length-append, ltb,
  refl, slice, suc, true, update, zero, ℕ, ◌%◌, ◌&&◌, ◌++◌, ◌+◌, ◌-◌, ◌/◌, ◌<◌, ◌==◌, ◌^◌, ◌∷◌, ◌≡◌,
  ◌≤◌,
}
use fuzzy_os.Clib.Printing.{itoa_lem, strlen-itoa, with_text-Holds}
use fuzzy_os.Clib.Radix.{digits, digits_step, digits_zero, numeral, numeral-IsText}
use fuzzy_os.Clib.Strings.{digit_char, itoa, text_of}
use fuzzy_os.Clib.Texts.{Holds, IsText, append-IsText, text_of-slice}
use fuzzy_os.Console.{Console, puts}
use fuzzy_os.Console.Printed.{slice-behind}
use fuzzy_os.Console.Printf.{behind, put_hex, with_behind, zeros_from}
use fuzzy_os.Console.Rendering.{padded_numeral, zeros}

zeros_from_lem :
    (m : Memory) (k i y : ℕ) → zeros_from m k i y ≡ (if leb i y && ltb y (i + k) then 48 else m y)
unfolding zeros_from
zeros_from_lem m zero i y = ground arith
zeros_from_lem m (suc k) i y = ground (arith, zeros_from_lem (update m i 48) k (i + 1) y)

length-zeros : (n : ℕ) → length (zeros n) ≡ n
length-zeros zero = refl
length-zeros (suc n) = omega (arith, length-zeros n)

get_or-zeros : (n i : ℕ) → get_or (zeros n) i 0 ≡ (if ltb i n then 48 else 0)
get_or-zeros zero i = ground arith
get_or-zeros (suc n) zero = ground arith
get_or-zeros (suc n) (suc i) = ground (arith, get_or-zeros n i)

get_or-append :
    (s t : List ℕ) (i : ℕ)
    → get_or (s ++ t) i 0 ≡ (if ltb i (length s) then get_or s i 0 else get_or t (i - length s) 0)
get_or-append [] t i = ground arith
get_or-append (c ∷ s) t zero = ground arith
get_or-append (c ∷ s) t (suc i) = ground (arith, get_or-append s t i)

zeros-IsText : (n : ℕ) → IsText (zeros n)
zeros-IsText zero = tt
zeros-IsText (suc n) = (ground arith, zeros-IsText n)

digits_zero_nil : (f v : ℕ) → v ≡ 0 → length (digits 16 f v) ≤ 0
digits_zero_nil f v e = rw (e, digits_zero 16 f) (omega arith)

length-digits_16 : (f k v : ℕ) → v < 16 ^ k → length (digits 16 f v) ≤ k
unfolding digits
length-digits_16 zero k v h = omega arith
length-digits_16 (suc f) zero v h = digits_zero_nil (suc f) v (omega (arith, h))
length-digits_16 (suc f) (suc k) v h = elim (dec_lt 0 v) [
  | no n ↦ omega (arith, digits_zero_nil (suc f) v (omega arith))
  | yes p ↦ rw (digits_step 16 f v (omega arith)) (
      omega (
        arith,
        length-append (digits 16 f (v / 16)) (digit_char (v % 16) ∷ []),
        length-digits_16 f k (v / 16) (omega (arith, h)),
      ))
]

-- A word has at most eight hexadecimal digits.
pub length-numeral_16 : (v : Word) → v < 2 ^ 32 → length (numeral 16 v) ≤ 8
unfolding numeral
length-numeral_16 v h = elim (dec_lt 0 v) [
  | no n ↦ let t : v == 0 ≡ true = ground arith in rw t (omega arith)
  | yes p ↦ let t : v == 0 ≡ false = ground arith in rw t (length-digits_16 32 8 v h)
]

-- Eight digits, when the word is one.
pub length-padded_numeral : (v : Word) → v < 2 ^ 32 → length (padded_numeral v) ≡ 8
length-padded_numeral v h = omega (
  arith,
  length-append (zeros (8 - length (numeral 16 v))) (numeral 16 v),
  length-zeros (8 - length (numeral 16 v)),
  length-numeral_16 v h,
)

-- The conversion buffer when the numeral `s` stands at index 8, and when the zeros are in it.
abbrev shown : Memory → Memory → ℕ → Memory
shown conv p n = zeros_from (with_behind conv 8 p) (8 - n) n

shown-Holds :
    (conv p : Memory) (s : List ℕ)
    → Holds p 0 s
    → length s ≤ 8
    → Holds (shown conv p (length s)) (length s) (zeros (8 - length s) ++ s)
shown-Holds conv p s h l = record {
  chars = λ i b. ground (
    arith,
    zeros_from_lem (with_behind conv 8 p) (8 - length s) (length s) (length s + i),
    get_or-append (zeros (8 - length s)) s i,
    length-append (zeros (8 - length s)) s,
    get_or-zeros (8 - length s) i,
    length-zeros (8 - length s),
    h.chars (i + length s - 8),
  );
  nul = ground (
    arith,
    zeros_from_lem (with_behind conv 8 p) (8 - length s) (length s)
        (length s + length (zeros (8 - length s) ++ s)),
    length-append (zeros (8 - length s)) s,
    length-zeros (8 - length s),
    h.nul,
  );
}

shown_text :
    (conv p : Memory) (s : List ℕ)
    → IsText s
    → Holds p 0 s
    → length s ≤ 8
    → text_of (slice (shown conv p (length s)) (length s) (64 - length s))
      ≡ zeros (8 - length s) ++ s
shown_text conv p s t h l =
    text_of-slice (shown conv p (length s)) (length s) (64 - length s) (zeros (8 - length s) ++ s)
      (append-IsText (zeros (8 - length s)) s (zeros-IsText (8 - length s)) t)
      (shown-Holds conv p s h l)
      (omega (arith, length-append (zeros (8 - length s)) s, length-zeros (8 - length s)))

pub put_hex_padded :
    (conv : Memory) (v : Word) (c : Console)
    → v < 2 ^ 32
    → put_hex 1 conv v c ≡ puts (padded_numeral v) c
unfolding put_hex
put_hex_padded conv v c h = rw (slice-behind conv (itoa v (behind conv 8) 16) 8 0 8 56 refl) (
    rw (strlen-itoa v 16 56 (behind conv 8) (omega arith)) (
      ap (λ s. puts s c)
        (shown_text conv (itoa v (behind conv 8) 16) (numeral 16 v) (numeral-IsText 16 v)
          (with_text-Holds (itoa v (behind conv 8) 16) (behind conv 8) (numeral 16 v)
            (λ y. itoa_lem v 16 (behind conv 8) y))
          (length-numeral_16 v h))))
