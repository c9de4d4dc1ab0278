-- ===== src/Keyboard.antt =====
-- student-distrib/keyboard.c, the interrupt handler of the keyboard: one call for each scan code.
-- `none` is an access outside an array that decides: of the 127 bytes of `keyboard_buf`, or of a table
-- of 87 entries. Two reads outside of them are no `none`: that of the byte before `keyboard_buf`, which
-- is a field of the state, and that of a table at the code of a release, which nothing depends on.
pub mod Maps
pub mod Branches
pub mod Safety
pub mod Typing
use mathlib.Core.Option
use fuzzy_os.Base.{
  List, Option, Ports, Word, [], add32, get_or, if◌then◌else◌, leb, ltb, map, minus_one, none, not,
  slt, some, sub32, update, ℕ, ◌&&◌, ◌==◌, ◌||◌, ◌∷◌,
}
use fuzzy_os.Console.{
  Console, Terminal, clear, deletec, keyboard_puts, putc, puts, reset_cursor, set_terminal,
  store_deleted_line, update_cursor,
}
use fuzzy_os.Display.{Keyboard, buf_size, change_display_terminal, set_display_term}
use fuzzy_os.Keyboard.Maps.{
  keyboard_map, keyboard_map_caps, keyboard_map_shift, keyboard_map_shift_caps,
}
use fuzzy_os.Pic.{enable_irq, send_eoi}

abbrev pub buffer_size : ℕ
buffer_size = 128

abbrev pub tab_key : ℕ
tab_key = 0x0F

abbrev pub backspace_key : ℕ
backspace_key = 0x0E

abbrev pub caps_key : ℕ
caps_key = 0x3A

abbrev pub l_key : ℕ
l_key = 0x26

abbrev pub key_press : ℕ
key_press = 0x59

-- init_keyboard, but for the cleared global `buffer_loc`, which nothing reads; the interrupt is
-- unmasked through the hardware's `read`.
unfoldable pub init_keyboard : (Ports → ℕ → ℕ) → Console → Console
init_keyboard read c = record c {
  ports = enable_irq read 1 c.ports;
  terminals = λ t.
      if ltb t 3
      then record (c.terminals t) {
        screen_x = 0;
        screen_y = 0;
        save_y = 0;
        caps_flag = 0;
        enter_flag = 0;
        buffer_loc = 0;
      }
      else c.terminals t;
}

-- the terminal on display
abbrev pub shown : Keyboard → Terminal
shown k = k.con.terminals k.con.display

abbrev pub set_shown : Terminal → Keyboard → Keyboard
set_shown term k = record k { con = set_terminal k.con.display term k.con }

abbrev pub on_console : (Console → Console) → Keyboard → Keyboard
on_console f k = record k { con = f k.con }

-- `send_eoi(1)`
abbrev pub end_interrupt : Keyboard → Keyboard
end_interrupt k = on_console (λ c. record c { ports = send_eoi 1 c.ports }) k

-- a read of `keyboard_buf[i]`; the index -1, outside of the array, reads the byte that the linker has
-- put before it, which is `before_buf`.
unfoldable pub read_buf : Keyboard → Word → Option ℕ
read_buf k i =
    if i == minus_one
    then some k.before_buf
    else if ltb i buf_size
    then some (k.keyboard_buf i)
    else none

-- `keyboard_buf[terminal->_buffer_loc] = ch; terminal->_buffer_loc++;`
unfoldable pub append_char : ℕ → Keyboard → Option Keyboard
append_char ch k =
    if ltb (shown k).buffer_loc buf_size
    then some (
        set_shown (record (shown k) { buffer_loc = add32 (shown k).buffer_loc 1 })
          (record k { keyboard_buf = update k.keyboard_buf (shown k).buffer_loc ch }))
    else none

-- the tab key: four spaces on the screen, one character in the line
unfoldable pub on_tab : Keyboard → Option Keyboard
unfolding append_char
on_tab k =
    Option.map (λ k'. on_console update_cursor (end_interrupt k'))
      (append_char 9 (on_console (λ c. putc 32 (putc 32 (putc 32 (putc 32 c)))) k))

-- `if (terminal->_buffer_loc > 0) terminal->_buffer_loc--;`
unfoldable pub drop_char : Keyboard → Keyboard
drop_char k =
    if slt 0 (shown k).buffer_loc
    then set_shown (record (shown k) { buffer_loc = sub32 (shown k).buffer_loc 1 }) k
    else k

-- the backspace key, where the byte before `_buffer_loc` is `last`
unfoldable pub erase_last : ℕ → Keyboard → Keyboard
unfolding drop_char
erase_last last k =
    if last == 9
    then drop_char (
        end_interrupt (on_console (λ c. update_cursor (deletec (deletec (deletec (deletec c))))) k))
    else if (shown k).buffer_loc == 0
    then end_interrupt k
    else on_console update_cursor (end_interrupt (on_console deletec (drop_char k)))

unfoldable pub on_backspace : Keyboard → Option Keyboard
unfolding read_buf erase_last
on_backspace k = Option.map (λ last. erase_last last k) (read_buf k (sub32 (shown k).buffer_loc 1))

-- The flags of control, caps lock, shift and alt, in the order of the tests; 0xE0 stands for the
-- press and the release of the right-hand keys.
unfoldable pub set_flags : ℕ → Keyboard → Keyboard
set_flags code k = record k {
  control_flag =
      if code == 0x9D || code == 0xE0
      then 0
      else if code == 0x1D || code == 0xE0
      then 1
      else k.control_flag;
  caps_flag =
      if code == caps_key && k.caps_flag == 0
      then 1
      else if code == caps_key && k.caps_flag == 1
      then 0
      else k.caps_flag;
  shift_flag =
      if code == 0xAA || code == 0xB6
      then 0
      else if code == 0x2A || code == 0x36
      then 1
      else k.shift_flag;
  alt_flag =
      if code == 0xB8 || code == 0xE0
      then 0
      else if code == 0x38 || code == 0xE0
      then 1
      else k.alt_flag;
}

-- `F1`, `F2` and `F3` with alt: the terminal `t` on display
unfoldable pub on_function_key : ℕ → Keyboard → Keyboard
on_function_key t k =
    if k.con.display == t
    then end_interrupt k
    else end_interrupt (on_console update_cursor (set_display_term t (change_display_terminal t k)))

-- "391OS> "
abbrev pub prompt : List ℕ
prompt = 51 ∷ 57 ∷ 49 ∷ 79 ∷ 83 ∷ 62 ∷ 32 ∷ []

-- control and l
unfoldable pub on_clear_key : Keyboard → Keyboard
on_clear_key k =
    let k1 : Keyboard = on_console (λ c. puts prompt (reset_cursor (clear c))) k in
    let k2 : Keyboard = set_shown (record (shown k1) { buffer_loc = 0 }) k1 in
    let k3 : Keyboard = on_console (λ c. (keyboard_puts buf_size k2.keyboard_buf 0 c).1) k2 in
    on_console update_cursor (end_interrupt (set_shown (record (shown k3) { save_y = 0 }) k3))

-- the table that the flags choose
unfoldable pub chosen_map : Keyboard → List ℕ
chosen_map k =
    if k.shift_flag == 1 && k.caps_flag == 0
    then keyboard_map_shift
    else if k.caps_flag == 1 && k.shift_flag == 0
    then keyboard_map_caps
    else if k.shift_flag == 1 && k.caps_flag == 1
    then keyboard_map_shift_caps
    else keyboard_map

-- `ch` has been appended: it is printed, and a newline ends the line.
unfoldable pub echo_char : ℕ → Keyboard → Keyboard
echo_char ch k =
    let k1 : Keyboard = on_console (putc ch) k in
    if ch == 10
    then (let k2 : Keyboard =
          on_console store_deleted_line (set_shown (record (shown k1) { enter_flag = 1 }) k1) in
        on_console update_cursor (set_shown (record (shown k2) { buffer_loc = 0 }) k2))
    else on_console update_cursor k1

-- a key with a character
unfoldable pub on_char : ℕ → Keyboard → Option Keyboard
unfolding append_char echo_char
on_char ch k = Option.map (λ k'. end_interrupt (echo_char ch k')) (append_char ch k)

-- the last test, `keyboard_map[user_input] != 0 && user_input < key_press && …`. The source reads the
-- table first: for the codes from `key_press` on, those of releases among them, it reads a byte behind
-- the table, which the second test makes irrelevant; for 87 and 88 the byte decides, which is `none`.
unfoldable pub on_other_key : ℕ → Keyboard → Option Keyboard
unfolding chosen_map on_char
on_other_key code k =
    if leb key_press code
    then some (end_interrupt k)
    else if leb 87 code
    then none
    else if get_or keyboard_map code 0 == 0 || not (slt (shown k).buffer_loc buffer_size)
    then some (end_interrupt k)
    else on_char (get_or (chosen_map k) code 0) k

-- get_keyboard_input after the two keys that return first and the flags
unfoldable pub on_plain_key : ℕ → Keyboard → Option Keyboard
unfolding on_function_key on_clear_key on_other_key
on_plain_key code k =
    if code == 0x3B && not (k.alt_flag == 0)
    then some (on_function_key 0 k)
    else if code == 0x3C && not (k.alt_flag == 0)
    then some (on_function_key 1 k)
    else if code == 0x3D && not (k.alt_flag == 0)
    then some (on_function_key 2 k)
    else if code == l_key && not (k.control_flag == 0)
    then some (on_clear_key k)
    else on_other_key code k

-- get_keyboard_input, on the byte that `inb(0x60)` gives
unfoldable pub get_keyboard_input : ℕ → Keyboard → Option Keyboard
unfolding on_tab on_backspace set_flags on_plain_key
get_keyboard_input code k =
    if code == tab_key
    then on_tab k
    else if code == backspace_key
    then on_backspace k
    else on_plain_key code (set_flags code k)
