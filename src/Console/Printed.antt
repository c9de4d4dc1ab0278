-- ===== src/Console/Printed.antt =====
-- printf of student-distrib/lib.c prints what the pieces of its format stand for.
use native.Mathlib.Decide.{dec_lt}
use fuzzy_os.Base.{
  List, Memory, Word, [], ap, arith, false, ltb, refl, slice, slt, sub32, suc, true, update, zero,
  ℕ, ◌++◌, ◌+◌, ◌-◌, ◌<◌, ◌^◌, ◌∙◌, ◌∷◌, ◌≡◌,
}
use fuzzy_os.Clib.Printing.{text_of-itoa}
use fuzzy_os.Clib.Radix.{numeral}
use fuzzy_os.Clib.Strings.{itoa, text_of}
use fuzzy_os.Console.{Console, putc, puts}
use fuzzy_os.Console.Printf.{behind, put_hex, put_signed, put_unsigned, with_behind}
use fuzzy_os.Console.Rendering.{signed_numeral}

pub puts-append : (s t : List ℕ) (c : Console) → puts (s ++ t) c ≡ puts t (puts s c)
unfolding puts
puts-append [] t c = refl
puts-append (ch ∷ s) t c = puts-append s t (putc ch c)

pub put_hex-plain :
    (conv : Memory) (v : Word) (c : Console) → put_hex 0 conv v c ≡ puts (numeral 16 v) c
unfolding put_hex
put_hex-plain conv v c = ap (λ s. puts s c) (text_of-itoa v 16 64 conv (omega arith))

pub put_unsigned_lem :
    (conv : Memory) (v : Word) (c : Console) → put_unsigned conv v c ≡ puts (numeral 10 v) c
unfolding put_unsigned
put_unsigned_lem conv v c = ap (λ s. puts s c) (text_of-itoa v 10 36 conv (omega arith))

pub slice-behind :
    (m p : Memory) (k a b n : ℕ) → b ≡ k + a → slice (with_behind m k p) b n ≡ slice p a n
slice-behind m p k a b zero h = refl
slice-behind m p k a b (suc n) h =
    ground (arith, slice-behind m p k (a + 1) (b + 1) n (omega arith), h)

text_of-minus :
    (m p : Memory) (n : ℕ)
    → text_of (slice (with_behind (update m 0 45) 1 p) 0 (suc n)) ≡ 45 ∷ text_of (slice p 0 n)
unfolding text_of
text_of-minus m p n =
    ap (λ s. 45 ∷ text_of s) (slice-behind (update m 0 45) p 1 0 1 n (omega arith))

pub put_signed_lem :
    (conv : Memory) (v : Word) (c : Console)
    → v < 2 ^ 32
    → put_signed conv v c ≡ puts (signed_numeral v) c
unfolding put_signed
put_signed_lem conv v c h = elim (dec_lt v (2 ^ 31)) [
  | yes l ↦
      let t : slt v 0 ≡ false = ground arith in
      let u : ltb v (2 ^ 31) ≡ true = ground arith in
      rw (t, u) (ap (λ s. puts s c) (text_of-itoa v 10 36 conv (omega arith)))
  | no n ↦
      let t : slt v 0 ≡ true = ground arith in
      let u : ltb v (2 ^ 31) ≡ false = ground arith in
      let e : sub32 0 v ≡ 2 ^ 32 - v = ground arith in
      rw (t, u)
        (ap (λ s. puts s c)
          (text_of-minus conv (itoa (sub32 0 v) (behind (update conv 0 45) 1) 10) 35
            ∙ ap (λ s. 45 ∷ s)
                (text_of-itoa (sub32 0 v) 10 35 (behind (update conv 0 45) 1) (omega arith)
                  ∙ ap (numeral 10) e)))
]
