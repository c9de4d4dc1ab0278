-- ===== src/Programs/Grep/Rounds.antt =====
-- A round of the loop of syscalls/ece391grep.c over the lines of its buffer.
use mathlib.Core.Path.{ap₂, subst}
use fuzzy_os.Base.{
  Bool-cases, List, Memory, Word, [], ap, arith, false, get_or, if◌then◌else◌, inl, inr, length,
  ltb, not, refl, slt, some, suc, sym, update, zero, ℕ, ◌&&◌, ◌++◌, ◌+◌, ◌-◌, ◌<◌, ◌==◌, ◌>>=◌, ◌^◌,
  ◌∙◌, ◌∷◌, ◌≡◌, ◌≢◌, ◌≤◌, ◌⊎◌,
}
use fuzzy_os.Clib.Texts.{IsText}
use fuzzy_os.Programs.Calls.{Calls}
use fuzzy_os.Programs.Grep.{data_from, line_end_from, lines_loop, show_line}
use fuzzy_os.Programs.Grep.Lines.{AreBytes, occurs, search_line-occurs}

-- The line `l` stands in the buffer from index `a` on.
pub record HoldsLine (block : Memory) (a : ℕ) (l : List ℕ) : Type 0 where
  pub chars : (i : ℕ) → i < length l → block (a + i) ≡ get_or l i 0
  pub no_newline : (i : ℕ) → i < length l → get_or l i 0 ≢ 10

HoldsLine-tail :
    (block : Memory) (a c : ℕ) (l : List ℕ) → HoldsLine block a (c ∷ l) → HoldsLine block (a + 1) l
HoldsLine-tail block a c l h = record {
  chars = λ i b. ground (arith, h.chars (suc i));
  no_newline = λ i b. h.no_newline (suc i) (omega arith);
}

line_end_from-HoldsLine :
    (n : ℕ) (block : Memory) (last a : ℕ) (l : List ℕ)
    → last < 2 ^ 31
    → n + a ≡ last
    → a + length l ≤ last
    → HoldsLine block a l
    → (block (a + length l) ≡ 10) ⊎ (a + length l ≡ last)
    → line_end_from n block last a ≡ a + length l
unfolding line_end_from
line_end_from-HoldsLine zero block last a l small s fits h e = omega arith
line_end_from-HoldsLine (suc n) block last a [] small s fits h e =
    let at : a + 0 ≡ a = omega arith in ground (arith, e)
line_end_from-HoldsLine (suc n) block last a (c ∷ l) small s fits h e =
    let first : block a ≡ c = ground (arith, h.chars 0) in
    let other : c ≢ 10 = h.no_newline 0 (omega arith) in
    let next : a + 1 + length l ≡ a + length (c ∷ l) = omega arith in
    let rest : line_end_from n block last (a + 1) ≡ a + 1 + length l =
      line_end_from-HoldsLine n block last (a + 1) l small (omega arith) (omega arith)
        (HoldsLine-tail block a c l h) (subst (λ x. (block x ≡ 10) ⊎ (x ≡ last)) (sym next) e) in
    ground (arith, first, other, rest)

data_from-step :
    (block : Memory) (a : ℕ) → a ≤ 1024 → data_from block a ≡ block a ∷ data_from block (a + 1)
data_from-step block a h =
    let e : 1025 - a ≡ suc (1024 - a) = omega arith in
    let e' : 1025 - (a + 1) ≡ 1024 - a = omega arith in rw (e, e') refl

data_from-HoldsLine :
    (block : Memory) (a : ℕ) (l : List ℕ)
    → a + length l ≤ 1024
    → HoldsLine block a l
    → block (a + length l) ≡ 0
    → data_from block a ≡ l ++ 0 ∷ data_from block (a + length l + 1)
data_from-HoldsLine block a [] fits h z =
    let at : a + 0 ≡ a = omega arith in
    let z' : block a ≡ 0 = ap block (sym at) ∙ z in
    rw at (data_from-step block a (omega arith) ∙ ap (λ c. c ∷ data_from block (a + 1)) z')
data_from-HoldsLine block a (c ∷ l) fits h z =
    let first : block a ≡ c = ground (arith, h.chars 0) in
    let next : a + 1 + length l ≡ a + suc (length l) = omega arith in
    let rest : data_from block (a + 1) ≡ l ++ 0 ∷ data_from block (a + suc (length l) + 1) =
      subst (λ x. data_from block (a + 1) ≡ l ++ 0 ∷ data_from block (x + 1)) next
        (data_from-HoldsLine block (a + 1) l (omega arith) (HoldsLine-tail block a c l h)
          (ap block next ∙ z)) in
    data_from-step block a (omega arith) ∙ ap₂ (λ x y. x ∷ y) first rest

ended-HoldsLine :
    (block : Memory) (a : ℕ) (l : List ℕ)
    → HoldsLine block a l
    → HoldsLine (update block (a + length l) 0) a l
ended-HoldsLine block a l h = record {
  chars = λ i b. ground (arith, h.chars i);
  no_newline = h.no_newline;
}

module _ {S : Type 0} (calls : Calls S) where
  -- A round of the loop of do_one_file over the lines of its buffer, at a line that ends in a
  -- newline or, for the first line of the buffer or after the last read, at the end of what has been
  -- read: the line is shown when the text, which is not empty and has no NUL, stands somewhere in
  -- it and begins with a character below 128, and else nothing is written; then the loop goes on
  -- behind the line, or it ends with an empty buffer.
  pub lines_loop-HoldsLine :
      (f c : ℕ) (s l fname : List ℕ) (cnt : Word) (block : Memory) (last a : ℕ) (st : S)
      → IsText (c ∷ s)
      → AreBytes (c ∷ s)
      → AreBytes l
      → last ≤ 1024
      → a + length l ≤ last
      → HoldsLine block a l
      → (block (a + length l) ≡ 10) ⊎ ((a + length l ≡ last) × ((cnt ≡ 0) ⊎ (a ≡ 0)))
      → let ended : Memory = update block (a + length l) 0 in
        lines_loop calls (suc f) (c ∷ s) fname cnt block last a st ≡ (
          (if ltb c 128 && occurs (c ∷ s) l
            then show_line calls fname (l ++ 0 ∷ data_from ended (a + length l + 1)) st
            else some st)
          >>= (λ st1.
              if ltb (a + length l + 1) last
              then lines_loop calls f (c ∷ s) fname cnt ended last (a + length l + 1) st1
              else some (ended, 0, st1)))
  unfolding lines_loop
  lines_loop-HoldsLine f c s l fname cnt block last a st h b bl small fits line e =
      let ended : Memory = update block (a + length l) 0 in
      let stop : line_end_from (last - a) block last a ≡ a + length l =
        line_end_from-HoldsLine (last - a) block last a l (omega arith) (omega arith) fits line
          (elim e [ inl p ↦ inl p | inr p ↦ inr p.0 ]) in
      let len : a + length l - a ≡ length l = omega arith in
      let stays : (not (block (a + length l) == 10) && (not (cnt == 0) && not (a == 0))) ≡ false =
        ground (arith, e) in
      let text : data_from ended a ≡ l ++ 0 ∷ data_from ended (a + length l + 1) =
        data_from-HoldsLine ended a l (omega arith) (ended-HoldsLine block a l line)
          (ground arith) in
      let found =
        search_line-occurs calls c s l (data_from ended (a + length l + 1)) fname ended a a st h b
          bl text in
      let signed : not (slt (a + length l + 1) last) ≡ not (ltb (a + length l + 1) last) =
        ground arith in
      rw (stop, len, stays, found, text, signed)
        (elim (Bool-cases (ltb (a + length l + 1) last)) [ inl p ↦ rw p refl | inr p ↦ rw p refl ])
