-- ===== src/Keyboard/Typing.antt =====
-- Typing a line (student-distrib/keyboard.c): what the keys leave in `keyboard_buf`.
use fuzzy_os.Base.{
  Bool, add32, every_below, every_below_sound, arith, false, get_or, if◌then◌else◌, ltb, not, refl,
  some, true, update, ℕ, ◌&&◌, ◌+◌, ◌<◌, ◌==◌, ◌||◌, ◌≡◌,
}
use fuzzy_os.Console.{store_deleted_line, update_cursor}
use fuzzy_os.Console.Input.{putc-OnlyPrints}
use fuzzy_os.Display.{Keyboard}
use fuzzy_os.Keyboard.{
  append_char, backspace_key, chosen_map, echo_char, end_interrupt, get_keyboard_input, on_char,
  on_other_key, on_plain_key, set_flags, set_shown, shown, tab_key,
}
use fuzzy_os.Keyboard.Branches.{loc}
use fuzzy_os.Keyboard.Maps.{keyboard_map}

-- A scan code of a key with a character.
abbrev pub has_char : ℕ → Bool
has_char code =
    ltb code 87
    && (not (code == tab_key)
        && (not (code == backspace_key) && not (get_or keyboard_map code 0 == 0)))

abbrev is_modifier : ℕ → Bool
is_modifier code =
    code == 0x1D
    || code == 0x3A
    || code == 0x2A
    || code == 0x36
    || code == 0x38
    || code == 0x3B
    || code == 0x3C
    || code == 0x3D

modifier_table : every_below 87 (λ c. get_or keyboard_map c 0 == 0 || not (is_modifier c)) ≡ true
unfolding every_below keyboard_map
modifier_table = refl

has_char-not_modifier : (code : ℕ) → has_char code ≡ true → is_modifier code ≡ false
has_char-not_modifier code h = ground (
  arith,
  every_below_sound 87 (λ c. get_or keyboard_map c 0 == 0 || not (is_modifier c)) code
      modifier_table,
)

set_flags-char : (code : ℕ) (k : Keyboard) → has_char code ≡ true → set_flags code k ≡ k
unfolding set_flags
set_flags-char code k h = ground (arith, has_char-not_modifier code h)

-- The state once `ch` has been put into the line.
abbrev appended : ℕ → Keyboard → Keyboard
appended ch k =
    set_shown (record (shown k) { buffer_loc = add32 (shown k).buffer_loc 1 })
      (record k { keyboard_buf = update k.keyboard_buf (shown k).buffer_loc ch })

on_other_key-char :
    (code : ℕ) (k : Keyboard)
    → has_char code ≡ true
    → loc k.con.display k < 127
    → on_other_key code k
      ≡ some (
          end_interrupt
            (echo_char (get_or (chosen_map k) code 0) (appended (get_or (chosen_map k) code 0) k)))
unfolding on_other_key on_char append_char
on_other_key-char code k h l = ground arith

-- What a key with the character `ch` does to the state.
pub record Types (ch : ℕ) (k k' : Keyboard) : Type 0 where
  pub line : k'.keyboard_buf ≡ update k.keyboard_buf (shown k).buffer_loc ch
  pub length : (shown k').buffer_loc ≡ (if ch == 10 then 0 else (shown k).buffer_loc + 1)
  pub enter : (shown k').enter_flag ≡ (if ch == 10 then 1 else (shown k).enter_flag)
  pub shift : k'.shift_flag ≡ k.shift_flag
  pub caps : k'.caps_flag ≡ k.caps_flag
  pub control : k'.control_flag ≡ k.control_flag
  pub display : k'.con.display ≡ k.con.display
  pub execute : k'.con.execute ≡ k.con.execute

echo_char-Types :
    (ch : ℕ) (k : Keyboard)
    → loc k.con.display k < 127
    → Types ch k (end_interrupt (echo_char ch (appended ch k)))
unfolding echo_char store_deleted_line update_cursor
echo_char-Types ch k h = ground (
  arith,
  (putc-OnlyPrints ch (appended ch k).con).display,
  (putc-OnlyPrints ch (appended ch k).con).execute,
  (putc-OnlyPrints ch (appended ch k).con).input k.con.display,
)

-- A key with a character, without control, puts the character that shift and caps lock choose
-- behind the line, and a newline finishes the line.
pub get_keyboard_input-char :
    (code : ℕ) (k : Keyboard)
    → has_char code ≡ true
    → k.control_flag ≡ 0
    → loc k.con.display k < 127
    → (k' : Keyboard) × (get_keyboard_input code k ≡ some k')
      × Types (get_or (chosen_map k) code 0) k k'
unfolding get_keyboard_input on_plain_key
get_keyboard_input-char code k h c l =
    let ch : ℕ = get_or (chosen_map k) code 0 in
    (
      end_interrupt (echo_char ch (appended ch k)),
      ground (
        arith,
        set_flags-char code k h,
        has_char-not_modifier code h,
        on_other_key-char code k h l,
      ),
      echo_char-Types ch k l,
    )
