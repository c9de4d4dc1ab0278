-- ===== src/Console.antt =====
-- The screen driver of student-distrib/lib.c: putc, terminal_putc, deletec, scroll_down, clear and
-- the cursor, over the text memory at 0xB8000 and the three saved pages behind it. The fields of
-- `terminal_t` (student-distrib/Terminal.h) are words; port writes are a list, the last one first.
pub mod Scroll
pub mod Bounds
pub mod Pages
pub mod Input
pub mod Printf
pub mod Rendering
pub mod Printed
pub mod Padding
pub mod Formats
pub mod Returning
use fuzzy_os.Base.{
  List, Memory, Ports, Word, [], add32, if◌then◌else◌, minus_one, out_byte, sle, slt, sub32, suc,
  update, zero, ℕ, ◌%◌, ◌&&◌, ◌*◌, ◌+◌, ◌/◌, ◌==◌, ◌^◌, ◌||◌, ◌∷◌,
}
use fuzzy_os.Clib.Blocks.{memcpy}

-- `terminal_t`
pub record Terminal : Type 0 where
  pub screen_x : Word
  pub screen_y : Word
  pub save_y : Word
  pub caps_flag : ℕ
  pub enter_flag : ℕ
  pub keyboard_buf : Memory
  pub buffer_loc : Word

-- The state that the driver works on: physical text memory, `terminal_data`,
-- `cur_display_terminal`, `cur_execute_terminal`, the pointer `video_mem` and the ports.
pub record Console : Type 0 where
  pub video : Memory
  pub terminals : ℕ → Terminal
  pub display : ℕ
  pub execute : ℕ
  pub video_mem : ℕ
  pub ports : Ports

abbrev pub video_start : ℕ
video_start = 0xB8000

abbrev pub num_cols : ℕ
num_cols = 80

abbrev pub num_rows : ℕ
num_rows = 25

abbrev pub scroll_one_down : ℕ
scroll_one_down = 160

abbrev pub scroll_limit : ℕ
scroll_limit = 24

-- `terminal_vidmem[t]` of student-distrib/system_call.c
abbrev pub terminal_vidmem : ℕ → ℕ
terminal_vidmem zero = 0xB9000
terminal_vidmem (suc zero) = 0xBA000
terminal_vidmem (suc (suc t)) = 0xBB000

-- `colors[t]` of student-distrib/system_call.c
abbrev pub colors : ℕ → ℕ
colors zero = 0x17
colors (suc zero) = 0x4E
colors (suc (suc t)) = 0x9F

-- `outb(data, port)`
abbrev pub outb : ℕ → ℕ → Console → Console
outb value port c = record c { ports = out_byte value port c.ports }

abbrev pub set_terminal : ℕ → Terminal → Console → Console
set_terminal t term c = record c { terminals = update c.terminals t term }

-- the address of the cell at the cursor, `vidmem + ((NUM_COLS * y + x) << 1)`
abbrev pub cell_at : ℕ → Terminal → ℕ
cell_at vidmem term = vidmem + (num_cols * term.screen_y + term.screen_x) * 2

-- The loop over `i` of clear, from cell `i` with `k` cells left.
unfoldable pub clear_from : ℕ → Memory → ℕ → ℕ → Memory
clear_from color m zero i = m
clear_from color m (suc k) i =
    clear_from color (update (update m (video_start + i * 2) 32) (video_start + i * 2 + 1) color) k
      (i + 1)

-- clear
unfoldable pub clear : Console → Console
clear c = record c {
  video = clear_from (colors c.display) c.video (num_rows * num_cols) 0;
  video_mem = video_start;
}

-- The last loop of scroll_down: the characters of the last row, not their colours.
unfoldable pub blank_from : ℕ → Memory → ℕ → ℕ → Memory
blank_from vidmem m zero i = m
blank_from vidmem m (suc k) i =
    blank_from vidmem (update m (vidmem + (num_cols * scroll_limit + i) * 2) 32) k (i + 1)

-- What scroll_down does to the page at `vidmem`.
unfoldable pub scroll_page : ℕ → Memory → Memory
scroll_page vidmem m =
    blank_from vidmem (memcpy m vidmem (vidmem + scroll_one_down) (num_cols * scroll_limit * 2))
      num_cols 0

-- The switch of scroll_down that sets the pointer `video_mem`.
abbrev pub execute_page : Console → ℕ
execute_page c = if c.execute == c.display then video_start else terminal_vidmem c.execute

-- scroll_down: `flag` says that the page is the screen, and `execute` names the terminal if not.
unfoldable pub scroll_down : ℕ → ℕ → ℕ → Console → Console
scroll_down flag execute vidmem c =
    let t : ℕ = if flag == 0 then execute else c.display in
    record c {
      video = scroll_page vidmem c.video;
      terminals =
          update c.terminals t (record (c.terminals t) { screen_x = 0; screen_y = scroll_limit });
      video_mem = execute_page c;
    }

-- The test at the end of putc and terminal_putc, for terminal `t` on the page at `vidmem`.
unfoldable pub scroll_if_full : ℕ → ℕ → ℕ → ℕ → Console → Console
scroll_if_full flag execute vidmem t c =
    if (c.terminals t).screen_y == num_rows then scroll_down flag execute vidmem c else c

-- What putc and terminal_putc have in common: the character at the cursor of terminal `t`, whose
-- page stands at `vidmem`, and the cursor moved on. `scroll_if_full` is the rest.
unfoldable pub put_at : ℕ → ℕ → ℕ → Console → Console
put_at ch t vidmem c =
    let term = c.terminals t in
    if ch == 10 || ch == 13
    then set_terminal t (record term { screen_y = add32 term.screen_y 1; screen_x = 0 }) c
    else (let c' = record c {
      video = update (update c.video (cell_at vidmem term) ch) (cell_at vidmem term + 1) (colors t);
    } in
        if add32 term.screen_x 1 == num_cols
        then set_terminal t (record term { screen_x = 0; screen_y = add32 term.screen_y 1 }) c'
        else set_terminal t
            (record term {
              screen_x = add32 term.screen_x 1 % num_cols;
              screen_y = (term.screen_y + add32 term.screen_x 1 % num_cols / num_cols) % num_rows;
            })
            c')

-- putc: the terminal on display, on the screen
unfoldable pub putc : ℕ → Console → Console
unfolding put_at scroll_if_full
putc ch c =
    scroll_if_full 1 minus_one video_start c.display
      (put_at ch c.display video_start (record c { video_mem = video_start }))

-- terminal_putc: terminal `video`, on the screen if it is the one on display, and otherwise on its
-- saved page. Only the first case sets the flag that scroll_down gets.
unfoldable pub terminal_putc : ℕ → ℕ → Console → Console
unfolding put_at scroll_if_full
terminal_putc ch video c =
    if video == c.display
    then scroll_if_full 1 video video_start video (put_at ch video video_start c)
    else scroll_if_full 0 video (terminal_vidmem video) video
        (put_at ch video (terminal_vidmem video) c)

-- deletec; the comparisons are those of `int`.
unfoldable pub deletec : Console → Console
deletec c =
    let term = c.terminals c.display in
    let x : Word = sub32 term.screen_x 1 in
    let term' : Terminal =
      if slt x 0 && slt term.save_y term.screen_y
      then record term { screen_x = add32 x num_cols; screen_y = sub32 term.screen_y 1 }
      else if slt x 0 && sle term.screen_y term.save_y
      then record term { screen_x = 0 }
      else record term { screen_x = x } in
    record (set_terminal c.display term' c) {
      video = update c.video (cell_at video_start term') 32;
      video_mem = video_start;
    }

-- reset_cursor
unfoldable pub reset_cursor : Console → Console
reset_cursor c =
    set_terminal c.display (record (c.terminals c.display) { screen_x = 0; screen_y = 0 }) c

-- update_cursor: `pos` is a `uint16_t`; each byte goes out behind its index register.
unfoldable pub update_cursor : Console → Console
update_cursor c =
    let term = c.terminals c.display in
    let pos : ℕ = (term.screen_y * num_cols + term.screen_x) % 2 ^ 16 in
    outb (pos / 256) 0x3D5 (outb 0x0E 0x3D4 (outb (pos % 256) 0x3D5 (outb 0x0F 0x3D4 c)))

-- store_deleted_line
unfoldable pub store_deleted_line : Console → Console
store_deleted_line c =
    let term = c.terminals c.display in
    set_terminal c.display (record term { save_y = term.screen_y }) c

-- puts, over the characters before the NUL
unfoldable pub puts : List ℕ → Console → Console
puts [] c = c
puts (ch ∷ s) c = puts s (putc ch c)

-- keyboard_puts, with fuel: `s[index == '\n']` is `s[1]` at index 10, and `s[0]` at any other.
unfoldable pub keyboard_puts : ℕ → Memory → ℕ → Console → ℕ × Console
keyboard_puts zero s index c = (index, c)
keyboard_puts (suc f) s index c =
    let rest = keyboard_puts f s (index + 1) (putc (s index) c) in
    if s index == 0
    then (index, c)
    else if s (if index == 10 then 1 else 0) == 0
    then rest
    else (index, c)
