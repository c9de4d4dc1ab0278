-- ===== src/TerminalDriver/Line.antt =====
-- From the keys to the program: a typed line as terminal_read delivers it
-- (student-distrib/keyboard.c, student-distrib/Terminal.c).
use fuzzy_os.Base.{
  List, Memory, Option, Option-cases, [], arith, get_or, inl, inr, length, none, refl, some, suc,
  true, update, zero, ℕ, ◌++◌, ◌+◌, ◌-◌, ◌<◌, ◌∙◌, ◌∷◌, ◌≡◌, ◌≢◌, ◌≤◌,
}
use fuzzy_os.Clib.Copy.{copied}
use fuzzy_os.Display.{Keyboard}
use fuzzy_os.Keyboard.{chosen_map, get_keyboard_input, shown}
use fuzzy_os.Keyboard.Typing.{Types, get_keyboard_input-char, has_char}
use fuzzy_os.TerminalDriver.{read_line}

-- The keys of a line, one interrupt each; `none` is an access outside an array.
unfoldable pub type_keys : List ℕ → Keyboard → Option Keyboard
type_keys [] k = some k
type_keys (code ∷ codes) k = elim (get_keyboard_input code k) [
  | none ↦ none
  | some k' ↦ type_keys codes k'
]

-- Keys with a character that is not the newline, in the given table.
abbrev pub AreText : List ℕ → List ℕ → Type 0
AreText table [] = Unit
AreText table (code ∷ codes) =
    (has_char code ≡ true) × (get_or table code 0 ≢ 10) × AreText table codes

-- What typing `codes` from a line of `n` characters on has done.
pub record Typed (table : List ℕ) (codes : List ℕ) (k k' : Keyboard) : Type 0 where
  pub before : (i : ℕ) → i < (shown k).buffer_loc → k'.keyboard_buf i ≡ k.keyboard_buf i
  pub text :
      (i : ℕ)
      → i < length codes
      → k'.keyboard_buf ((shown k).buffer_loc + i) ≡ get_or table (get_or codes i 0) 0
  pub len : (shown k').buffer_loc ≡ (shown k).buffer_loc + length codes
  pub table_same : chosen_map k' ≡ chosen_map k
  pub control : k'.control_flag ≡ k.control_flag
  pub display : k'.con.display ≡ k.con.display
  pub execute : k'.con.execute ≡ k.con.execute

chosen_map-same : (ch : ℕ) (k k' : Keyboard) → Types ch k k' → chosen_map k' ≡ chosen_map k
unfolding chosen_map
chosen_map-same ch k k' t = ground arith

text_cons :
    (code : ℕ) (codes : List ℕ) (k k1 k2 : Keyboard)
    → get_or (chosen_map k) code 0 ≢ 10
    → Types (get_or (chosen_map k) code 0) k k1
    → Typed (chosen_map k) codes k1 k2
    → (i : ℕ) → i < suc (length codes)
    → k2.keyboard_buf ((shown k).buffer_loc + i)
      ≡ get_or (chosen_map k) (get_or (code ∷ codes) i 0) 0
text_cons code codes k k1 k2 n t r zero lt =
    ground (arith, r.before ((shown k).buffer_loc + 0), t.line, t.length)
text_cons code codes k k1 k2 n t r (suc i) lt = ground (arith, r.text i, t.length)

pub type_keys-cons :
    (code : ℕ) (codes : List ℕ) (k k1 : Keyboard) (o : Option Keyboard)
    → get_keyboard_input code k ≡ some k1
    → type_keys codes k1 ≡ o
    → type_keys (code ∷ codes) k ≡ o
unfolding type_keys
type_keys-cons code codes k k1 o e e2 = ground arith

pub type_keys-Typed :
    (codes : List ℕ) (k : Keyboard)
    → AreText (chosen_map k) codes
    → k.control_flag ≡ 0
    → (shown k).buffer_loc + length codes ≤ 127
    → (k' : Keyboard) × (type_keys codes k ≡ some k') × Typed (chosen_map k) codes k k'
unfolding type_keys
type_keys-Typed [] k h c l = (
  k,
  refl,
  record {
    before = λ i lt. refl;
    text = λ i lt. absurd (omega arith);
    len = omega arith;
    table_same = refl;
    control = refl;
    display = refl;
    execute = refl;
  },
)
type_keys-Typed (code ∷ codes) k h c l =
    let (k1, e, t) = get_keyboard_input-char code k h.0 c (omega arith) in
    let m = chosen_map-same (get_or (chosen_map k) code 0) k k1 t in
    let one : (shown k1).buffer_loc ≡ (shown k).buffer_loc + 1 = ground arith in
    let (k2, e2, r) = type_keys-Typed codes k1 (rw m h.2) (t.control ∙ c) (omega arith) in
    (
      k2,
      type_keys-cons code codes k k1 (some k2) e e2,
      record {
        before = λ i lt. ground (arith, r.before i);
        text = text_cons code codes k k1 k2 h.1 t (rw m at r);
        len = omega (arith, r.len);
        table_same = r.table_same ∙ m;
        control = r.control ∙ t.control;
        display = r.display ∙ t.display;
        execute = r.execute ∙ t.execute;
      },
    )

pub type_keys-append :
    (codes more : List ℕ) (k k1 : Keyboard)
    → type_keys codes k ≡ some k1
    → type_keys (codes ++ more) k ≡ type_keys more k1
unfolding type_keys
type_keys-append [] more k k1 e = ground arith
type_keys-append (code ∷ codes) more k k1 e = elim (Option-cases (get_keyboard_input code k)) [
  | inl bad ↦ ground arith
  | inr (k', good) ↦ ground (arith, type_keys-append codes more k' k1)
]

-- The copy loop stops behind the first newline.
pub read_line-newline :
    (line : Memory) (m n i : ℕ) (buf : Memory)
    → ((j : ℕ) → j < m → line (i + j) ≢ 10)
    → line (i + m) ≡ 10
    → m < n
    → i + m < 127
    → (buf' : Memory) × (read_line line n i buf ≡ some (i + m + 1, buf'))
      × ((j : ℕ) → j ≤ m → buf' (i + j) ≡ line (i + j))
      × ((x : ℕ) → x < i → buf' x ≡ buf x)
unfolding read_line
read_line-newline line m zero i buf text nl h b = absurd (omega arith)
read_line-newline line zero (suc n) i buf text nl h b =
    (update buf i (line i), ground arith, λ j l. ground arith, λ x l. ground arith)
read_line-newline line (suc m) (suc n) i buf text nl h b =
    let (buf', e, copied, below) =
      read_line-newline line m n (i + 1) (update buf i (line i))
        (λ j l. ground (arith, text (suc j))) (ground arith) (omega arith) (omega arith) in
    (
      buf',
      ground (arith, text 0),
      λ j l. ground (arith, copied (j - 1), below i),
      λ x l. ground (arith, below x),
    )
