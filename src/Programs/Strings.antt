-- ===== src/Programs/Strings.antt =====
-- What the routines of syscalls/ece391support.c compute, beside those of the kernel.
use native.Mathlib.Nat.{mod-lt}
use fuzzy_os.Base.{
  ==_iff, Bool-cases, List, Memory, [], ap, arith, every_below, every_below_sound, get_or,
  if◌then◌else◌, inl, inr, leb, ltb, refl, slice, sub32, suc, sym, take, true, update, zero, ℕ, ◌%◌,
  ◌+◌, ◌-◌, ◌/◌, ◌<◌, ◌==◌, ◌^◌, ◌∙◌, ◌∷◌, ◌≡◌, ◌≤◌,
}
use fuzzy_os.Clib.Numerals.{strrev_lem}
use fuzzy_os.Clib.Printing.{itoa_loop_more}
use fuzzy_os.Clib.Strings.{digit_char, itoa, itoa_loop, strlen, strrev, strrev_loop}
use fuzzy_os.Programs.Support.{
  ece391_itoa, ece391_itoa_loop, ece391_strcmp, ece391_strlen, ece391_strncmp, ece391_strrev,
  ece391_strrev_loop, lookup,
}

pub strlen_same : (s : List ℕ) → ece391_strlen s ≡ strlen s
unfolding ece391_strlen strlen
strlen_same [] = refl
strlen_same (c ∷ s) = ap (λ n. if c == 0 then 0 else suc n) (strlen_same s)

strrev_loop_same : (f : ℕ) (s : Memory) (b e : ℕ) → ece391_strrev_loop f s b e ≡ strrev_loop f s b e
unfolding ece391_strrev_loop strrev_loop
strrev_loop_same zero s b e = refl
strrev_loop_same (suc f) s b e =
    ap (λ m. if ltb b e then m else s)
      (strrev_loop_same f (update (update s e (s b)) b (s e)) (b + 1) (e - 1))

strrev_same : (s : Memory) (n y : ℕ) → ece391_strrev s n y ≡ strrev s n y
unfolding ece391_strrev strrev
strrev_same s n y = elim (Bool-cases (leb n 1)) [
  | inl e ↦ rw e (sym (strrev_lem s n y ∙ short s n y (ground arith)))
  | inr e ↦ rw e (ap (λ m. m y) (strrev_loop_same n s 0 (n - 1)))
]
  where
    short : (s : Memory) (n y : ℕ) → n ≤ 1 → (if ltb y n then s (n - 1 - y) else s y) ≡ s y
    short s n y h = ground arith

lookup_table : every_below 36 (λ i. get_or lookup i 0 == digit_char i) ≡ true
unfolding every_below
lookup_table = refl

lookup-digit_char : (i : ℕ) → i < 36 → get_or lookup i 0 ≡ digit_char i
lookup-digit_char i h =
    (==_iff _ _).0 (every_below_sound 36 (λ i. get_or lookup i 0 == digit_char i) i lookup_table h)

itoa_loop_same :
    (f v r : ℕ) (buf : Memory) (p : ℕ)
    → 2 ≤ r
    → r ≤ 36
    → ece391_itoa_loop f v r buf p ≡ itoa_loop f v r buf p
unfolding ece391_itoa_loop itoa_loop
itoa_loop_same zero v r buf p lo hi = refl
itoa_loop_same (suc f) v r buf p lo hi =
    let digit : get_or lookup (v % r) 0 ≡ digit_char (v % r) =
      lookup-digit_char (v % r) (omega (arith, mod-lt v {m = r} (omega arith))) in
    rw digit (
      ap (λ m. if v == 0 then (buf, p) else m)
        (itoa_loop_same f (v / r) r (update buf p (digit_char (v % r))) (p + 1) lo hi))

same_buffer :
    (v r : ℕ) (buf : Memory) (y : ℕ) → 2 ≤ r → r ≤ 36 → ece391_itoa v buf r y ≡ itoa v buf r y
unfolding ece391_itoa itoa
same_buffer v r buf y lo hi = elim (Bool-cases (v == 0)) [
  | inl e ↦ rw e refl
  | inr e ↦
      rw (e, itoa_loop_same 32 v r buf 0 lo hi)
        (let m : Memory = update (itoa_loop 32 v r buf 0).0 (itoa_loop 32 v r buf 0).1 0 in
          ap (λ n. ece391_strrev m n y) (strlen_same (slice m 0 ((itoa_loop 32 v r buf 0).1 + 1)))
          ∙ strrev_same m (strlen (slice m 0 ((itoa_loop 32 v r buf 0).1 + 1))) y)
]

-- For a value of 32 bits and a radix from 2 to 36, the itoa of the programs leaves the same buffer as
-- the kernel's, and in it the digits end in 32 rounds or fewer, so that 32 rounds are the whole loop.
pub ece391_itoa-itoa :
    (v r : ℕ) (buf : Memory) (y : ℕ)
    → v < 2 ^ 32
    → 2 ≤ r
    → r ≤ 36
    → (ece391_itoa v buf r y ≡ itoa v buf r y)
      × ((f : ℕ) → ece391_itoa_loop (32 + f) v r buf 0 ≡ ece391_itoa_loop 32 v r buf 0)
ece391_itoa-itoa v r buf y l lo hi = (
  same_buffer v r buf y lo hi,
  λ f.
      itoa_loop_same (32 + f) v r buf 0 lo hi
      ∙ itoa_loop_more r 32 (32 + f) v buf 0 lo l (omega arith)
      ∙ sym (itoa_loop_same 32 v r buf 0 lo hi),
)

-- ece391_strncmp compares the first `n` bytes as ece391_strcmp compares whole texts.
pub ece391_strncmp-take :
    (s t : List ℕ) (n : ℕ) → ece391_strncmp s t n ≡ ece391_strcmp (take n s) (take n t)
unfolding ece391_strncmp ece391_strcmp
ece391_strncmp-take s t zero = refl
ece391_strncmp-take [] [] (suc n) = refl
ece391_strncmp-take [] (d ∷ t) (suc n) = refl
ece391_strncmp-take (c ∷ s) [] (suc n) = refl
ece391_strncmp-take (c ∷ s) (d ∷ t) (suc n) =
    ap (λ r. if c == d then (if c == 0 then 0 else r) else sub32 c d) (ece391_strncmp-take s t n)
