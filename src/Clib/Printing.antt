-- ===== src/Clib/Printing.antt =====
-- itoa of student-distrib/lib.c writes the numeral of its argument, and the NUL.
use native.Mathlib.Decide.{dec_lt}
use fuzzy_os.Base.{
  List, Memory, [], ap, arith, false, get_or, if◌then◌else◌, leb, length, length-append, ltb, refl,
  slice, suc, sym, update, zero, ℕ, ◌%◌, ◌&&◌, ◌++◌, ◌+◌, ◌-◌, ◌/◌, ◌<◌, ◌==◌, ◌^◌, ◌∙◌, ◌∷◌, ◌≡◌,
  ◌≢◌, ◌≤◌,
}
use fuzzy_os.Clib.Numerals.{strrev_lem}
use fuzzy_os.Clib.Radix.{
  digits, digits-IsText, digits_step, div_bound, length-numeral_le, numeral, numeral-IsText,
  read_from, read_from-numeral,
}
use fuzzy_os.Clib.Strings.{digit_char, itoa, itoa_loop, strlen, strrev, text_of}
use fuzzy_os.Clib.Texts.{Holds, get_or-IsText, strlen-slice, strlen-slice_at, text_of-slice}

-- What the digit loop leaves: the digits, the last one first.
abbrev laid : Memory → ℕ → List ℕ → Memory
laid buf p ds y =
    if leb p y && ltb y (p + length ds) then get_or ds (p + length ds - 1 - y) 0 else buf y

get_or-snoc :
    (s : List ℕ) (c i : ℕ)
    → get_or (s ++ (c ∷ [])) i 0
      ≡ (if ltb i (length s) then get_or s i 0 else if i == length s then c else 0)
get_or-snoc [] c zero = refl
get_or-snoc [] c (suc i) = ground arith
get_or-snoc (d ∷ s) c zero = ground arith
get_or-snoc (d ∷ s) c (suc i) = ground (arith, get_or-snoc s c i)

itoa_loop-step :
    (f v r : ℕ) (buf : Memory) (p : ℕ)
    → v ≢ 0
    → itoa_loop (suc f) v r buf p
      ≡ itoa_loop f (v / r) r (update buf p (digit_char (v % r))) (p + 1)
unfolding itoa_loop
itoa_loop-step f v r buf p h = let t : v == 0 ≡ false = ground arith in rw t refl

itoa_loop-stop : (f r : ℕ) (buf : Memory) (p : ℕ) → itoa_loop f 0 r buf p ≡ (buf, p)
unfolding itoa_loop
itoa_loop-stop zero r buf p = refl
itoa_loop-stop (suc f) r buf p = refl

laid-snoc :
    (buf : Memory) (p c y : ℕ) (ds : List ℕ)
    → laid (update buf p c) (p + 1) ds y ≡ laid buf p (ds ++ (c ∷ [])) y
laid-snoc buf p c y ds =
    ground (arith, length-append ds (c ∷ []), get_or-snoc ds c (p + length ds - y))

-- Where the loop ends.
itoa_loop-end :
    (f v r : ℕ) (buf : Memory) (p : ℕ) → (itoa_loop f v r buf p).1 ≡ p + length (digits r f v)
unfolding itoa_loop digits
itoa_loop-end zero v r buf p = omega arith
itoa_loop-end (suc f) v r buf p = elim (dec_lt 0 v) [
  | no n ↦ let e : v ≡ 0 = omega arith in rw e (omega arith)
  | yes h ↦
      rw (itoa_loop-step f v r buf p (omega arith), digits_step r f v (omega arith))
        (omega (
          arith,
          itoa_loop-end f (v / r) r (update buf p (digit_char (v % r))) (p + 1),
          length-append (digits r f (v / r)) (digit_char (v % r) ∷ []),
        ))
]

-- And what it leaves.
itoa_loop-laid :
    (f v r : ℕ) (buf : Memory) (p y : ℕ) → (itoa_loop f v r buf p).0 y ≡ laid buf p (digits r f v) y
unfolding itoa_loop digits
itoa_loop-laid zero v r buf p y = ground arith
itoa_loop-laid (suc f) v r buf p y = elim (dec_lt 0 v) [
  | no n ↦ let e : v ≡ 0 = omega arith in rw e (ground arith)
  | yes h ↦
      rw (itoa_loop-step f v r buf p (omega arith), digits_step r f v (omega arith))
        (itoa_loop-laid f (v / r) r (update buf p (digit_char (v % r))) (p + 1) y
          ∙ laid-snoc buf p (digit_char (v % r)) y (digits r f (v / r)))
]

-- The loop needs no more than 32 rounds for a word.
pub itoa_loop_more :
    (r f k v : ℕ) (buf : Memory) (p : ℕ)
    → 2 ≤ r
    → v < 2 ^ f
    → f ≤ k
    → itoa_loop k v r buf p ≡ itoa_loop f v r buf p
itoa_loop_more r zero k v buf p h l m =
    let e : v ≡ 0 = omega (arith, l) in
    rw e (itoa_loop-stop k r buf p ∙ sym (itoa_loop-stop 0 r buf p))
itoa_loop_more r (suc f) zero v buf p h l m = absurd (omega arith)
itoa_loop_more r (suc f) (suc k) v buf p h l m = elim (dec_lt 0 v) [
  | no n ↦
      let e : v ≡ 0 = omega arith in
      rw e (itoa_loop-stop (suc k) r buf p ∙ sym (itoa_loop-stop (suc f) r buf p))
  | yes q ↦
      itoa_loop-step k v r buf p (omega arith)
      ∙ itoa_loop_more r f k (v / r) (update buf p (digit_char (v % r))) (p + 1) h
          (div_bound v r f h l) (omega arith)
      ∙ sym (itoa_loop-step f v r buf p (omega arith))
]

-- The buffer when the digits are in it, the last one first, and the NUL.
abbrev ended : ℕ → ℕ → Memory → Memory
ended v r buf = update (itoa_loop 32 v r buf 0).0 (itoa_loop 32 v r buf 0).1 0

ended_lem :
    (v r : ℕ) (buf : Memory) (y : ℕ)
    → ended v r buf y ≡ (
        if ltb y (length (digits r 32 v))
        then get_or (digits r 32 v) (length (digits r 32 v) - 1 - y) 0
        else if y == length (digits r 32 v)
        then 0
        else buf y)
ended_lem v r buf y = ground (arith, itoa_loop-end 32 v r buf 0, itoa_loop-laid 32 v r buf 0 y)

-- A buffer that has a text and its NUL in front of what stood there before.
abbrev pub with_text : Memory → List ℕ → Memory
with_text buf s y = if ltb y (length s) then get_or s y 0 else if y == length s then 0 else buf y

pub with_text-Holds :
    (m buf : Memory) (s : List ℕ) → ((y : ℕ) → m y ≡ with_text buf s y) → Holds m 0 s
with_text-Holds m buf s h = record {
  chars = λ i l. ground (arith, h i);
  nul = ground (arith, h (length s));
}

strlen-ended :
    (v r : ℕ) (buf : Memory)
    → strlen (slice (ended v r buf) 0 ((itoa_loop 32 v r buf 0).1 + 1)) ≡ length (digits r 32 v)
strlen-ended v r buf =
    strlen-slice_at (ended v r buf) 0 (length (digits r 32 v)) ((itoa_loop 32 v r buf 0).1 + 1)
      (λ i l. ground (
        arith,
        ended_lem v r buf i,
        get_or-IsText (digits r 32 v) (length (digits r 32 v) - 1 - i) (digits-IsText r 32 v),
      ))
      (ground (arith, ended_lem v r buf (length (digits r 32 v))))
      (omega (arith, itoa_loop-end 32 v r buf 0))

-- The buffer that itoa leaves.
pub itoa_lem : (v r : ℕ) (buf : Memory) (y : ℕ) → itoa v buf r y ≡ with_text buf (numeral r v) y
unfolding itoa numeral
itoa_lem v r buf y = elim (dec_lt 0 v) [
  | no n ↦ let e : v ≡ 0 = omega arith in rw e (ground arith)
  | yes h ↦
      let t : v == 0 ≡ false = ground arith in
      rw t (
        ap (λ n. strrev (ended v r buf) n y) (strlen-ended v r buf)
        ∙ strrev_lem (ended v r buf) (length (digits r 32 v)) y
        ∙ turned_lem (ended v r buf) buf (digits r 32 v) y (λ z. ended_lem v r buf z))
]
  where
    turned_lem :
        (m buf : Memory) (ds : List ℕ) (y : ℕ)
        → ((z : ℕ)
            → m z ≡ (
                if ltb z (length ds)
                then get_or ds (length ds - 1 - z) 0
                else if z == length ds
                then 0
                else buf z))
        → (if ltb y (length ds) then m (length ds - 1 - y) else m y) ≡ with_text buf ds y
    turned_lem m buf ds y h = ground (arith, h y, h (length ds - 1 - y))

-- The text that stands in the buffer then, when `k` bytes of it are looked at.
pub text_of-itoa :
    (v r k : ℕ) (buf : Memory) → 32 < k → text_of (slice (itoa v buf r) 0 k) ≡ numeral r v
text_of-itoa v r k buf h =
    text_of-slice (itoa v buf r) 0 k (numeral r v) (numeral-IsText r v)
      (with_text-Holds (itoa v buf r) buf (numeral r v) (λ y. itoa_lem v r buf y))
      (omega (arith, length-numeral_le r v))

pub strlen-itoa :
    (v r k : ℕ) (buf : Memory) → 32 < k → strlen (slice (itoa v buf r) 0 k) ≡ length (numeral r v)
strlen-itoa v r k buf h =
    strlen-slice (itoa v buf r) 0 k (numeral r v) (numeral-IsText r v)
      (with_text-Holds (itoa v buf r) buf (numeral r v) (λ y. itoa_lem v r buf y))
      (omega (arith, length-numeral_le r v))

-- The text that itoa writes for a 32-bit value in a radix from 2 to 36, read as a numeral in that
-- radix, is the value.
pub read_from-itoa :
    (v r : ℕ) (buf : Memory)
    → 2 ≤ r
    → r ≤ 36
    → v < 2 ^ 32
    → read_from r 0 (text_of (slice (itoa v buf r) 0 33)) ≡ v
read_from-itoa v r buf h k l =
    ap (read_from r 0) (text_of-itoa v r 33 buf (omega arith)) ∙ read_from-numeral r v h l
