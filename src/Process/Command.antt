-- ===== src/Process/Command.antt =====
-- The parser of execute (student-distrib/system_call.c).
use mathlib.Core.List.{append-nil}
use fuzzy_os.Base.{
  Bool, List, Option, [], ap, arith, false, get_or, if◌then◌else◌, inl, inr, length, ltb, none,
  refl, some, suc, sym, true, zero, ℕ, ◌&&◌, ◌++◌, ◌<◌, ◌∙◌, ◌∷◌, ◌≡◌, ◌≢◌, ◌⊎◌,
}
use fuzzy_os.Clib.Strings.{text_of}
use fuzzy_os.Clib.Texts.{IsText, text_of-IsText}
use fuzzy_os.Process.{parse_command, parse_in_bounds, skip_spaces, split_word}

-- Characters that are neither NUL nor a space.
abbrev pub IsWord : List ℕ → Type 0
IsWord [] = Unit
IsWord (c ∷ w) = (c ≢ 0) × (c ≢ 32) × IsWord w

abbrev pub spaces : ℕ → List ℕ
spaces zero = []
spaces (suc n) = 32 ∷ spaces n

skip_spaces-spaces : (n : ℕ) (s : List ℕ) → skip_spaces (spaces n ++ s) ≡ skip_spaces s
unfolding skip_spaces
skip_spaces-spaces zero s = refl
skip_spaces-spaces (suc n) s = skip_spaces-spaces n s

skip_spaces_stops : (s : List ℕ) → get_or s 0 0 ≢ 32 → skip_spaces s ≡ s
unfolding skip_spaces
skip_spaces_stops [] h = refl
skip_spaces_stops (c ∷ s) h = ground arith

split_word-append :
    (w s : List ℕ)
    → IsWord w
    → (get_or s 0 0 ≡ 0) ⊎ (get_or s 0 0 ≡ 32)
    → split_word (w ++ s) ≡ (w, s)
unfolding split_word
split_word-append [] [] h e = refl
split_word-append [] (c ∷ s) h e = ground arith
split_word-append (c ∷ w) s h e = ground (arith, split_word-append w s h.2 e)

split_lem :
    (n m c : ℕ) (w args : List ℕ)
    → IsWord (c ∷ w)
    → IsText args
    → get_or args 0 0 ≢ 32
    → (parse_command (spaces n ++ (c ∷ (w ++ (spaces (suc m) ++ args)))) ≡ (c ∷ w, args))
      × (parse_command (spaces n ++ c ∷ w) ≡ (c ∷ w, []))
unfolding parse_command
split_lem n m c w args h t a =
    let long : List ℕ = c ∷ (w ++ (spaces (suc m) ++ args)) in
    let e1 : skip_spaces (spaces n ++ long) ≡ long =
      skip_spaces-spaces n long ∙ skip_spaces_stops long h.1 in
    let e2 : split_word long ≡ (c ∷ w, spaces (suc m) ++ args) =
      split_word-append (c ∷ w) (spaces (suc m) ++ args) h (inr refl) in
    let e3 : text_of (skip_spaces (spaces (suc m) ++ args)) ≡ args =
      ap text_of (skip_spaces-spaces (suc m) args ∙ skip_spaces_stops args a)
      ∙ text_of-IsText args t in
    let e4 : skip_spaces (spaces n ++ c ∷ w) ≡ c ∷ w =
      skip_spaces-spaces n (c ∷ w) ∙ skip_spaces_stops (c ∷ w) h.1 in
    let e5 : split_word (c ∷ w) ≡ (c ∷ w, []) =
      ap split_word (sym (append-nil (c ∷ w))) ∙ split_word-append (c ∷ w) [] h (inl refl) in
    (rw (e1, e2) (ap (λ x. (c ∷ w, x)) e3), rw (e4, e5) refl)

-- Spaces, a word and spaces with a text behind them are parsed as the word and the text, inside the
-- two buffers, if the word and the text have fewer than 128 characters and the text does not start
-- with a space; a word alone is parsed as the word and no text; and a word of 128 characters or more
-- is written behind its buffer.
pub parse_in_bounds_lem :
    (n m c : ℕ) (w args : List ℕ)
    → IsWord (c ∷ w)
    → IsText args
    → get_or args 0 0 ≢ 32
    → length args < 128
    → (parse_in_bounds (spaces n ++ (c ∷ (w ++ (spaces (suc m) ++ args))))
        ≡ (if ltb (length (c ∷ w)) 128 then some (c ∷ w, args) else none))
      × (parse_in_bounds (spaces n ++ c ∷ w)
          ≡ (if ltb (length (c ∷ w)) 128 then some (c ∷ w, []) else none))
unfolding parse_in_bounds
parse_in_bounds_lem n m c w args h t a short =
    let (e, e') = split_lem n m c w args h t a in
    let fits : ltb (length args) 128 ≡ true = ground arith in
    (
      ap inside e
          ∙ ap (λ b. if ltb (length (c ∷ w)) 128 && b then some (c ∷ w, args) else none) fits
          ∙ bounded (ltb (length (c ∷ w)) 128) (some (c ∷ w, args)),
      ap inside e' ∙ bounded (ltb (length (c ∷ w)) 128) (some (c ∷ w, [])),
    )
  where
    inside : List ℕ × List ℕ → Option (List ℕ × List ℕ)
    inside r = if ltb (length (r.0)) 128 && ltb (length (r.1)) 128 then some r else none

    bounded :
        (b : Bool) (o : Option (List ℕ × List ℕ))
        → (if b && true then o else none) ≡ (if b then o else none)
    bounded true o = refl
    bounded false o = refl
