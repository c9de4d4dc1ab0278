-- ===== src/Programs/Grep/Lines.antt =====
-- What the search of syscalls/ece391grep.c finds in a line.
use fuzzy_os.Base.{
  Bool, Bool-cases, List, Memory, [], ap, arith, drop, false, get_or, if◌then◌else◌, inl, inr,
  length, ltb, refl, sign_extend8, slice, some, suc, true, zero, ℕ, ◌&&◌, ◌++◌, ◌+◌, ◌-◌, ◌<◌, ◌==◌,
  ◌||◌, ◌∷◌, ◌≡◌,
}
use fuzzy_os.Clib.Texts.{IsText}
use fuzzy_os.Programs.Calls.{Calls}
use fuzzy_os.Programs.Grep.{data_from, match_at, search_line, show_line}
use fuzzy_os.Programs.Support.{ece391_strlen, ece391_strncmp}

-- Every element is a byte.
abbrev pub AreBytes : List ℕ → Type 0
AreBytes [] = Unit
AreBytes (c ∷ s) = (c < 256) × AreBytes s

-- The second text starts with the first one.
abbrev pub starts : List ℕ → List ℕ → Bool
starts [] t = true
starts (c ∷ s) [] = false
starts (c ∷ s) (d ∷ t) = (c == d) && starts s t

-- The first text stands somewhere in the second one.
abbrev pub occurs : List ℕ → List ℕ → Bool
occurs s [] = starts s []
occurs s (d ∷ t) = starts s (d ∷ t) || occurs s t

strlen-length : (s : List ℕ) → IsText s → ece391_strlen s ≡ length s
unfolding ece391_strlen
strlen-length [] h = refl
strlen-length (c ∷ s) h = ground (arith, h, strlen-length s h.1)

-- A text that starts before a NUL ends before it.
strncmp-starts :
    (s t r : List ℕ)
    → IsText s
    → AreBytes s
    → AreBytes t
    → (ece391_strncmp (t ++ 0 ∷ r) s (length s) == 0) ≡ starts s t
unfolding ece391_strncmp
strncmp-starts [] t r h b d = ground arith
strncmp-starts (c ∷ s) [] r h b d = ground (arith, h, b)
strncmp-starts (c ∷ s) (e ∷ t) r h b d = elim (Bool-cases (e == c)) [
  | inl p ↦ ground (arith, p, h, b, d, strncmp-starts s t r h.1 b.1 d.1)
  | inr p ↦ ground (arith, p, h, b, d)
]

slice-tail :
    (m : Memory) (a k d : ℕ) (l : List ℕ)
    → slice m a k ≡ d ∷ l
    → (m a ≡ d) × (slice m (a + 1) (k - 1) ≡ l)
slice-tail m a zero d l h = absurd (omega (arith, ap length h))
slice-tail m a (suc k) d l h =
    (let e : suc k - 1 ≡ k = omega arith in (ap (λ x. get_or x 0 0) h, rw e (ap (drop 1) h)))

data_from-tail :
    (block : Memory) (a d : ℕ) (l : List ℕ)
    → data_from block a ≡ d ∷ l
    → (block a ≡ d) × (data_from block (a + 1) ≡ l)
data_from-tail block a d l h =
    let e : 1025 - (a + 1) ≡ 1025 - a - 1 = omega arith in
    rw e (slice-tail block a (1025 - a) d l h)

match_at-starts :
    (c d : ℕ) (s t r : List ℕ) (block : Memory) (check : ℕ)
    → IsText (c ∷ s)
    → AreBytes (c ∷ s)
    → AreBytes (d ∷ t)
    → data_from block check ≡ d ∷ (t ++ 0 ∷ r)
    → match_at (c ∷ s) block check ≡ (ltb c 128 && starts (c ∷ s) (d ∷ t))
unfolding match_at
match_at-starts c d s t r block check h b bt e =
    let n : ece391_strlen (c ∷ s) ≡ length (c ∷ s) = strlen-length (c ∷ s) h in
    let at : block check ≡ d = (data_from-tail block check d (t ++ 0 ∷ r) e).0 in
    let signed : (sign_extend8 c == d) ≡ (ltb c 128 && (c == d)) = ground (arith, b, bt) in
    rw (n, e, strncmp-starts (c ∷ s) (d ∷ t) r h b bt, at)
      (rw signed (again (ltb c 128) (c == d) (starts s t)))
  where
    again : (u x y : Bool) → ((u && x) && (x && y)) ≡ (u && (x && y))
    again true true y = refl
    again true false y = refl
    again false x y = refl

module _ {S : Type 0} (calls : Calls S) where
  -- The search of a line that stands in the buffer with a NUL behind it, for a text that is not
  -- empty: the line is shown once when the text stands somewhere in it and its first character is
  -- below 128, and else nothing is written.
  pub search_line-occurs :
      (c : ℕ) (s t r fname : List ℕ) (block : Memory) (line_start check : ℕ) (st : S)
      → IsText (c ∷ s)
      → AreBytes (c ∷ s)
      → AreBytes t
      → data_from block check ≡ t ++ 0 ∷ r
      → search_line calls (length t) (c ∷ s) fname block line_start check st ≡ (
          if ltb c 128 && occurs (c ∷ s) t
          then show_line calls fname (data_from block line_start) st
          else some st)
  unfolding search_line
  search_line-occurs c s [] r fname block line_start check st h b bt e = if_none (ltb c 128)
    where
      if_none :
          (u : Bool)
          → some st ≡ (
              if u && false then show_line calls fname (data_from block line_start) st else some st)
      if_none true = refl
      if_none false = refl
  search_line-occurs c s (d ∷ t) r fname block line_start check st h b bt e =
      let found : match_at (c ∷ s) block check ≡ (ltb c 128 && starts (c ∷ s) (d ∷ t)) =
        match_at-starts c d s t r block check h b bt e in
      let rest =
        search_line-occurs c s t r fname block line_start (check + 1) st h b bt.1
          (data_from-tail block check d (t ++ 0 ∷ r) e).1 in
      rw (found, rest) (if_or (ltb c 128) (starts (c ∷ s) (d ∷ t)) (occurs (c ∷ s) t))
    where
      if_or :
          (u x y : Bool)
          → (if u && x
              then show_line calls fname (data_from block line_start) st
              else (if u && y
                  then show_line calls fname (data_from block line_start) st
                  else some st))
            ≡ (if u && (x || y)
                then show_line calls fname (data_from block line_start) st
                else some st)
      if_or true true y = refl
      if_or true false y = refl
      if_or false x y = refl
