-- ===== src/Tests/Keys.antt =====
-- The keyboard (student-distrib/keyboard.c) and a line that is typed and read.
use fuzzy_os.Base.{List, Memory, [], arith, get_or, refl, some, true, ℕ, ◌++◌, ◌<◌, ◌∷◌, ◌≡◌, ◌≤◌}
use fuzzy_os.Display.{Keyboard}
use fuzzy_os.Keyboard.{chosen_map, get_keyboard_input}
use fuzzy_os.Keyboard.Branches.{loc}
use fuzzy_os.Keyboard.Maps.{keyboard_map}
use fuzzy_os.Keyboard.Safety.{get_keyboard_input-safe}
use fuzzy_os.TerminalDriver.{terminal_read, wait_over}
use fuzzy_os.TerminalDriver.Line.{AreText, type_keys}
use fuzzy_os.TerminalDriver.TypedRead.{enter_code, typed_line_read}
use fuzzy_os.Tests.Machine.{blank, console0, keyboard0, terminal0}

-- the keys of "hi"
abbrev codes_hi : List ℕ
codes_hi = 0x23 ∷ 0x17 ∷ []

codes_hi-AreText : AreText (chosen_map keyboard0) codes_hi
unfolding chosen_map keyboard_map
codes_hi-AreText = (refl, omega arith, (refl, omega arith, tt))

get_keyboard_input-safe_example :
    (k' : Keyboard) × (get_keyboard_input 0x23 keyboard0 ≡ some k') × ((u : ℕ) → loc u k' ≤ 127)
get_keyboard_input-safe_example =
    get_keyboard_input-safe 0x23 keyboard0 (λ h. omega (arith, h)) (omega arith) (λ u. omega arith)

-- A line of 127 characters.
abbrev full_line : Keyboard
full_line = record keyboard0 {
  con = record console0 { terminals = λ t. record terminal0 { buffer_loc = 127 } };
}

typed_line_read_example :
    (k1 k2 : Keyboard) × (buf' : Memory) × (type_keys (codes_hi ++ enter_code ∷ []) keyboard0
      ≡ some k1)
    × (wait_over k1 ≡ true)
    × (terminal_read 0 (some blank) 128 k1 ≡ some (3, some buf', k2))
    × ((i : ℕ) → i < 2 → buf' i ≡ get_or (chosen_map keyboard0) (get_or codes_hi i 0) 0)
    × (buf' 2 ≡ 10)
    × ((k2.con.terminals 0).buffer_loc ≡ 0)
    × ((k2.con.terminals 0).enter_flag ≡ 0)
typed_line_read_example =
    typed_line_read codes_hi keyboard0 blank 128 codes_hi-AreText refl refl refl (omega arith)
      (omega arith) (omega arith)
