-- ===== src/TerminalDriver/TypedRead.antt =====
-- A typed line comes out of terminal_read (student-distrib/keyboard.c, student-distrib/Terminal.c).
use mathlib.Core.Path.{subst}
use fuzzy_os.Base.{
  List, Memory, Word, [], ap, arith, get_or, if◌then◌else◌, length, refl, slt, some, suc, sym, true,
  zero, ℕ, ◌++◌, ◌+◌, ◌<◌, ◌^◌, ◌∙◌, ◌∷◌, ◌≡◌, ◌≢◌, ◌≤◌,
}
use fuzzy_os.Clib.Copy.{copied}
use fuzzy_os.Display.{Keyboard}
use fuzzy_os.Keyboard.{chosen_map, shown}
use fuzzy_os.Keyboard.Maps.{
  keyboard_map, keyboard_map_caps, keyboard_map_shift, keyboard_map_shift_caps,
}
use fuzzy_os.Keyboard.Typing.{get_keyboard_input-char, has_char}
use fuzzy_os.TerminalDriver.{finish_read, read_line, terminal_read, wait_over}
use fuzzy_os.TerminalDriver.Line.{
  AreText, read_line-newline, type_keys, type_keys-Typed, type_keys-append, type_keys-cons,
}

-- the enter key
abbrev pub enter_code : ℕ
enter_code = 0x1C

-- The state after the keys of a line and the enter key: the line and its newline stand in the
-- buffer, and the wait of terminal_read is over.
record Finished (codes : List ℕ) (k k' : Keyboard) : Type 0 where
  chars :
      (i : ℕ) → i < length codes → k'.keyboard_buf i ≡ get_or (chosen_map k) (get_or codes i 0) 0
  newline : k'.keyboard_buf (length codes) ≡ 10
  over : wait_over k' ≡ true
  execute : k'.con.execute ≡ k.con.execute

enter_table :
    (has_char enter_code ≡ true)
    × (get_or keyboard_map enter_code 0 ≡ 10)
    × (get_or keyboard_map_shift enter_code 0 ≡ 10)
    × (get_or keyboard_map_caps enter_code 0 ≡ 10)
    × (get_or keyboard_map_shift_caps enter_code 0 ≡ 10)
unfolding keyboard_map keyboard_map_shift keyboard_map_caps keyboard_map_shift_caps
enter_table = (refl, refl, refl, refl, refl)

-- Enter is a newline in every table.
chosen_map-enter : (k : Keyboard) → get_or (chosen_map k) enter_code 0 ≡ 10
unfolding chosen_map
chosen_map-enter k = ground (arith, enter_table)

wait_over_of :
    (k : Keyboard) → k.con.display ≡ k.con.execute → (shown k).enter_flag ≡ 1 → wait_over k ≡ true
wait_over_of k e f = ground (arith, ap (λ t. (k.con.terminals t).enter_flag) e)

typed_line :
    (codes : List ℕ) (k : Keyboard)
    → AreText (chosen_map k) codes
    → k.control_flag ≡ 0
    → (shown k).buffer_loc ≡ 0
    → k.con.display ≡ k.con.execute
    → length codes < 127
    → (k' : Keyboard) × (type_keys (codes ++ enter_code ∷ []) k ≡ some k') × Finished codes k k'
typed_line codes k h c z same l =
    let (k1, e1, t1) = type_keys-Typed codes k h c (omega arith) in
    let (k2, e2, t2) =
      get_keyboard_input-char enter_code k1 enter_table.0 (t1.control ∙ c)
        (omega (arith, t1.len)) in
    let nl = chosen_map-enter k1 in
    (
      k2,
      type_keys-append codes (enter_code ∷ []) k k1 e1
          ∙ type_keys-cons enter_code [] k1 k2 (some k2) e2 (unfold type_keys in refl),
      record {
        chars = λ i lt. ground (arith, t1.text i, t2.line, t1.len);
        newline = ground (arith, t2.line, t1.len);
        over =
            wait_over_of k2 (t2.display ∙ t1.display ∙ same ∙ sym t1.execute ∙ sym t2.execute)
              (ground (arith, t2.enter));
        execute = t2.execute ∙ t1.execute;
      },
    )

AreText-ne :
    (table codes : List ℕ) (i : ℕ)
    → AreText table codes
    → i < length codes
    → get_or table (get_or codes i 0) 0 ≢ 10
AreText-ne table [] i h l = absurd (omega arith)
AreText-ne table (code ∷ codes) zero h l = h.1
AreText-ne table (code ∷ codes) (suc i) h l = AreText-ne table codes i h.2 (omega arith)

-- A read of a finished line of `m` characters and a newline.
terminal_read_line :
    (entry m : ℕ) (k : Keyboard) (buf : Memory) (nbytes : Word)
    → ((j : ℕ) → j < m → k.keyboard_buf j ≢ 10)
    → k.keyboard_buf m ≡ 10
    → m < 127
    → m < nbytes
    → nbytes < 2 ^ 31
    → (buf' : Memory) × (terminal_read entry (some buf) nbytes k
        ≡ some (m + 1, some buf', finish_read entry k))
      × ((j : ℕ) → j ≤ m → buf' j ≡ k.keyboard_buf j)
unfolding terminal_read
terminal_read_line entry m k buf nbytes text nl short more small =
    (r.0, ground (arith, r.1), λ j l. ground (arith, r.2 j))
  where
    n : ℕ
    n = if slt 128 nbytes then 128 else nbytes

    room : m < n
    room = ground arith

    r :
        (buf' : Memory) × (read_line k.keyboard_buf n 0 buf ≡ some (0 + m + 1, buf'))
        × ((j : ℕ) → j ≤ m → buf' (0 + j) ≡ k.keyboard_buf (0 + j))
        × ((x : ℕ) → x < 0 → buf' x ≡ buf x)
    r =
        read_line-newline k.keyboard_buf m n 0 buf (λ j l. ground (arith, text j)) (ground arith)
          room (omega arith)

finish_read_lem :
    (entry : ℕ) (k : Keyboard) → ((finish_read entry k).con.terminals entry).buffer_loc ≡ 0
unfolding finish_read
finish_read_lem entry k = ground arith

finish_read-enter_flag :
    (entry : ℕ) (k : Keyboard) → ((finish_read entry k).con.terminals k.con.execute).enter_flag ≡ 0
unfolding finish_read
finish_read-enter_flag entry k = ground arith

-- A line of fewer than 127 keys, each with a character of the table that shift and caps lock
-- choose, and the enter key, typed on an empty line of the executing terminal: no key goes outside
-- an array, terminal_read's wait is over, and a read of more bytes than the line has keys returns
-- the characters of the keys in order and the newline, and leaves the terminal with an empty line
-- and the enter flag reset.
pub typed_line_read :
    (codes : List ℕ) (k : Keyboard) (buf : Memory) (nbytes : Word)
    → AreText (chosen_map k) codes
    → k.control_flag ≡ 0
    → (shown k).buffer_loc ≡ 0
    → k.con.display ≡ k.con.execute
    → length codes < 127
    → length codes < nbytes
    → nbytes < 2 ^ 31
    → (k1 k2 : Keyboard) × (buf' : Memory) × (type_keys (codes ++ enter_code ∷ []) k ≡ some k1)
      × (wait_over k1 ≡ true)
      × (terminal_read k.con.display (some buf) nbytes k1 ≡ some (length codes + 1, some buf', k2))
      × ((i : ℕ) → i < length codes → buf' i ≡ get_or (chosen_map k) (get_or codes i 0) 0)
      × (buf' (length codes) ≡ 10)
      × ((k2.con.terminals k.con.display).buffer_loc ≡ 0)
      × ((k2.con.terminals k.con.execute).enter_flag ≡ 0)
typed_line_read codes k buf nbytes h c z same short more small =
    let (k1, e, f) = typed_line codes k h c z same short in
    let (buf', r, copied) =
      terminal_read_line k.con.display (length codes) k1 buf nbytes
        (λ j l. rw (f.chars j l) (AreText-ne (chosen_map k) codes j h l)) f.newline short more
        small in
    (
      k1,
      finish_read k.con.display k1,
      buf',
      e,
      f.over,
      r,
      λ i l. copied i (omega arith) ∙ f.chars i l,
      copied (length codes) (omega arith) ∙ f.newline,
      finish_read_lem k.con.display k1,
      subst (λ t. ((finish_read k.con.display k1).con.terminals t).enter_flag ≡ 0) f.execute
          (finish_read-enter_flag k.con.display k1),
    )
