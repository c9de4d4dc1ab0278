-- ===== src/Keyboard/Safety.antt =====
-- The keyboard handler (student-distrib/keyboard.c) against the bounds of its line buffer.
use fuzzy_os.Base.{
  Option, add32, arith, get_or, if◌then◌else◌, inr, none, refl, some, update, ℕ, ◌&&◌, ◌+◌, ◌<◌,
  ◌==◌, ◌≡◌, ◌≢◌, ◌≤◌, ◌⊎◌,
}
use fuzzy_os.Console.{
  Console, Terminal, clear, puts, reset_cursor, set_terminal, store_deleted_line, update_cursor,
}
use fuzzy_os.Console.Input.{
  OnlyPrints, OnlyPrints-trans, clear-OnlyPrints, keyboard_puts_noop, putc-OnlyPrints,
  puts-OnlyPrints, reset_cursor-OnlyPrints,
}
use fuzzy_os.Display.{Keyboard, change_display_terminal, set_display_term}
use fuzzy_os.Keyboard.{
  append_char, backspace_key, chosen_map, echo_char, get_keyboard_input, on_char, on_clear_key,
  on_function_key, on_other_key, on_plain_key, on_tab, prompt, set_flags, set_shown, shown,
}
use fuzzy_os.Keyboard.Branches.{Gives, four_spaces-OnlyPrints, loc, on_backspace-loc, on_tab-loc}
use fuzzy_os.Keyboard.Maps.{keyboard_map}

-- One more character at terminal `d`, or none at all after a newline.
abbrev more_at : ℕ → ℕ → ℕ → ℕ → ℕ
more_at ch d u n = if u == d then if ch == 10 then 0 else n + 1 else n

echo_char-loc :
    (ch : ℕ) (k : Keyboard) (u : ℕ)
    → loc u (echo_char ch k) ≡ (if u == k.con.display && ch == 10 then 0 else loc u k)
unfolding echo_char store_deleted_line update_cursor
echo_char-loc ch k u = ground (
  arith,
  (putc-OnlyPrints ch k.con).display,
  (putc-OnlyPrints ch k.con).input u,
  (putc-OnlyPrints ch k.con).input k.con.display,
)

on_char-loc :
    (ch : ℕ) (k : Keyboard) (u : ℕ)
    → loc k.con.display k < 127
    → Gives (λ k'. loc u k' ≡ more_at ch k.con.display u (loc u k)) (on_char ch k)
unfolding on_char append_char
on_char-loc ch k u h = ground (arith, echo_char-loc ch (appended ch k) u)
  where
    appended : ℕ → Keyboard → Keyboard
    appended c j =
        set_shown (record (shown j) { buffer_loc = add32 (shown j).buffer_loc 1 })
          (record j { keyboard_buf = update j.keyboard_buf (shown j).buffer_loc c })

-- No line is longer than 127 characters.
abbrev AtMost127 : ℕ → Keyboard → Type 0
AtMost127 u k = loc u k ≤ 127

on_other_key-loc :
    (code : ℕ) (k : Keyboard) (u : ℕ)
    → code ≢ 87
    → code ≢ 88
    → loc k.con.display k < 127
    → loc u k ≤ 127
    → Gives (AtMost127 u) (on_other_key code k)
unfolding on_other_key
on_other_key-loc code k u n7 n8 h hu =
    ground (arith, on_char-loc (get_or (chosen_map k) code 0) k u)

on_function_key-loc : (t : ℕ) (k : Keyboard) (u : ℕ) → loc u (on_function_key t k) ≡ loc u k
unfolding on_function_key change_display_terminal set_display_term update_cursor
on_function_key-loc t k u = ground arith

on_clear_key-loc :
    (k : Keyboard) (u : ℕ) → loc u (on_clear_key k) ≡ (if u == k.con.display then 0 else loc u k)
unfolding on_clear_key update_cursor
on_clear_key-loc k u = ground (
  arith,
  printed.display,
  printed.input u,
  keyboard_puts_noop 127 k.keyboard_buf (set_terminal k'.con.display term k'.con),
)
  where
    cleared : Console
    cleared = puts prompt (reset_cursor (clear k.con))

    printed : OnlyPrints k.con cleared
    printed = OnlyPrints-trans k.con (clear k.con) cleared (clear-OnlyPrints k.con) (
        OnlyPrints-trans (clear k.con) (reset_cursor (clear k.con)) cleared
          (reset_cursor-OnlyPrints (clear k.con))
          (puts-OnlyPrints prompt (reset_cursor (clear k.con))))

    k' : Keyboard
    k' = record k { con = cleared }

    term : Terminal
    term = record (shown k') { buffer_loc = 0 }

-- The keyboard's flags do not touch the terminals.
set_flags-con : (code : ℕ) (k : Keyboard) → (set_flags code k).con ≡ k.con
unfolding set_flags
set_flags-con code k = refl

on_plain_key-loc :
    (code : ℕ) (k : Keyboard) (u : ℕ)
    → code ≢ 87
    → code ≢ 88
    → loc k.con.display k < 127
    → loc u k ≤ 127
    → Gives (AtMost127 u) (on_plain_key code k)
unfolding on_plain_key
on_plain_key-loc code k u n7 n8 h hu = ground (
  arith,
  on_function_key-loc 0 k u,
  on_function_key-loc 1 k u,
  on_function_key-loc 2 k u,
  on_clear_key-loc k u,
  on_other_key-loc code k u n7 n8 h hu,
)

get_keyboard_input-loc :
    (code : ℕ) (k : Keyboard) (u : ℕ)
    → code ≢ 87
    → code ≢ 88
    → loc k.con.display k < 127
    → loc u k ≤ 127
    → Gives (AtMost127 u) (get_keyboard_input code k)
unfolding get_keyboard_input set_flags
get_keyboard_input-loc code k u n7 n8 h hu =
    ground (
      arith,
      on_tab-loc k u,
      on_backspace-loc k u,
      on_plain_key-loc code (set_flags code k) u n7 n8,
    )

handled :
    (code : ℕ) (k : Keyboard)
    → code ≢ 87
    → code ≢ 88
    → loc k.con.display k < 127
    → ((u : ℕ) → loc u k ≤ 127)
    → (k' : Keyboard) × (get_keyboard_input code k ≡ some k') × ((u : ℕ) → loc u k' ≤ 127)
handled code k n7 n8 h all = of_Gives (get_keyboard_input code k) one
  where
    one : (u : ℕ) → Gives (AtMost127 u) (get_keyboard_input code k)
    one u = get_keyboard_input-loc code k u n7 n8 h (all u)

    of_Gives :
        (o : Option Keyboard)
        → ((u : ℕ) → Gives (AtMost127 u) o)
        → (k' : Keyboard) × (o ≡ some k') × ((u : ℕ) → loc u k' ≤ 127)
    of_Gives none g = absurd (g 0)
    of_Gives (some k') g = (k', refl, g)

-- A read of `keyboard_buf` before its first byte, or of the 87 entries of a table behind the last.
abbrev pub ReadsOutside : ℕ → Keyboard → Type 0
ReadsOutside code k = ((code ≡ backspace_key) × (loc k.con.display k ≡ 0)) ⊎ (87 ≤ code)

-- The press of a key with a scan code below 87, but for backspace on an empty line, while the line
-- on display has fewer than 127 characters and no line has more than 127: the handler comes to its
-- end and neither reads nor writes outside `keyboard_buf` and the tables, and afterwards no line has
-- more than 127 characters. (The two exceptions read outside an array.)
pub get_keyboard_input-safe :
    (code : ℕ) (k : Keyboard)
    → ¬ ReadsOutside code k
    → loc k.con.display k < 127
    → ((u : ℕ) → loc u k ≤ 127)
    → (k' : Keyboard) × (get_keyboard_input code k ≡ some k') × ((u : ℕ) → loc u k' ≤ 127)
get_keyboard_input-safe code k inside h all =
    handled code k (λ e. inside (inr (omega arith))) (λ e. inside (inr (omega arith))) h all

tab_overflow : (k : Keyboard) → loc k.con.display k ≡ 127 → on_tab k ≡ none
unfolding on_tab append_char
tab_overflow k e = ground (
  arith,
  (four_spaces-OnlyPrints k.con).display,
  (four_spaces-OnlyPrints k.con).input k.con.display,
)

char_overflow :
    (code : ℕ) (k : Keyboard)
    → loc k.con.display k ≡ 127
    → code < 87
    → get_or keyboard_map code 0 ≢ 0
    → on_other_key code k ≡ none
unfolding on_other_key on_char append_char
char_overflow code k e h n = ground arith

-- With 127 characters in the line the handler's own limit of 128 still lets one in: a tab and every
-- key with a character then write behind the end of `keyboard_buf`.
pub line_overflow :
    (k : Keyboard)
    → loc k.con.display k ≡ 127
    → (on_tab k ≡ none)
      × ((code : ℕ) → code < 87 → get_or keyboard_map code 0 ≢ 0 → on_other_key code k ≡ none)
line_overflow k e = (tab_overflow k e, λ code h n. char_overflow code k e h n)
