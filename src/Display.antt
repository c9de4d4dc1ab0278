-- ===== src/Display.antt =====
-- The state of student-distrib/keyboard.c, and change_display_terminal of
-- student-distrib/system_call.c, which saves one terminal's screen and line and shows another's.
pub mod Switch
use fuzzy_os.Base.{Memory, if◌then◌else◌, ltb, update, ℕ}
use fuzzy_os.Clib.Blocks.{memcpy}
use fuzzy_os.Console.{Console, Terminal, colors, terminal_vidmem, video_start}

-- The static flags, `keyboard_buf` (127 bytes) with the byte that stands before it in memory, and
-- `ATTRIB`.
pub record Keyboard : Type 0 where
  pub con : Console
  pub shift_flag : ℕ
  pub caps_flag : ℕ
  pub control_flag : ℕ
  pub alt_flag : ℕ
  pub keyboard_buf : Memory
  pub before_buf : ℕ
  pub attrib : ℕ

-- the size of `keyboard_buf`
abbrev pub buf_size : ℕ
buf_size = 127

-- `memcpy(dest, src, 127)` between line buffers, which lie apart
abbrev pub copy_line : Memory → Memory → Memory
copy_line dest src i = if ltb i buf_size then src i else dest i

-- `KERNEL_STACK_SIZE/2`, the size of a page of text
abbrev pub page_size : ℕ
page_size = 4096

-- The two block copies: the screen to the old terminal's page, the new terminal's page to the screen.
unfoldable pub swap_pages : ℕ → ℕ → Memory → Memory
swap_pages old new m =
    memcpy (memcpy m (terminal_vidmem old) video_start page_size) video_start (terminal_vidmem new)
      page_size

-- What happens to `terminal_data`: the line and the caps lock of the old terminal are kept.
unfoldable pub keep_terminal : Keyboard → ℕ → Terminal
keep_terminal k = update k.con.terminals k.con.display (record (k.con.terminals k.con.display) {
  keyboard_buf = copy_line (k.con.terminals k.con.display).keyboard_buf k.keyboard_buf;
  caps_flag = k.caps_flag;
})

-- change_display_terminal; the caller then sets `cur_display_terminal`.
unfoldable pub change_display_terminal : ℕ → Keyboard → Keyboard
unfolding keep_terminal swap_pages
change_display_terminal new k = record k {
  con = record (k.con) {
    terminals = keep_terminal k;
    video = swap_pages k.con.display new k.con.video;
  };
  attrib = colors new;
  keyboard_buf = copy_line k.keyboard_buf (keep_terminal k new).keyboard_buf;
  caps_flag = (keep_terminal k new).caps_flag;
}

-- setDisplayTerm and setExecuteTerm
unfoldable pub set_display_term : ℕ → Keyboard → Keyboard
set_display_term t k = record k { con = record (k.con) { display = t } }

unfoldable pub set_execute_term : ℕ → Keyboard → Keyboard
set_execute_term t k = record k { con = record (k.con) { execute = t } }
