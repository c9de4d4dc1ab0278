-- ===== src/Display/Switch.antt =====
-- Switching the terminal on display and back (student-distrib/system_call.c).
use fuzzy_os.Base.{
  Memory, arith, if◌then◌else◌, leb, ltb, refl, sym, ℕ, ◌&&◌, ◌+◌, ◌-◌, ◌<◌, ◌∙◌, ◌≡◌, ◌≢◌,
}
use fuzzy_os.Clib.Blocks.{memcpy}
use fuzzy_os.Clib.Moves.{memcpy_lem}
use fuzzy_os.Console.{terminal_vidmem, video_start}
use fuzzy_os.Console.Pages.{terminal_vidmem-eq}
use fuzzy_os.Display.{Keyboard, change_display_terminal, set_display_term, swap_pages}

-- What a switch does to the text memory.
swap_pages_lem :
    (old new : ℕ) (m : Memory) (x : ℕ)
    → old < 3
    → new < 3
    → old ≢ new
    → swap_pages old new m x ≡ (
        if leb video_start x && ltb x (video_start + 4096)
        then m (terminal_vidmem new + (x - video_start))
        else if leb (terminal_vidmem old) x && ltb x (terminal_vidmem old + 4096)
        then m (video_start + (x - terminal_vidmem old))
        else m x)
unfolding swap_pages
swap_pages_lem old new m x lo ln ne = ground (
  arith,
  terminal_vidmem-eq old lo,
  terminal_vidmem-eq new ln,
  memcpy_lem (memcpy m (terminal_vidmem old) video_start 4096) video_start (terminal_vidmem new)
      4096 x,
  memcpy_lem m (terminal_vidmem old) video_start 4096 (terminal_vidmem new + (x - video_start)),
  memcpy_lem m (terminal_vidmem old) video_start 4096 x,
)

-- The two texts agree on the 127 bytes of a line buffer.
abbrev pub SameLine : Memory → Memory → Type 0
SameLine a b = (i : ℕ) → i < 127 → a i ≡ b i

-- The 4096 bytes of page `p` of `m` and of page `q` of `m'` are the same.
abbrev pub SamePage : ℕ → Memory → ℕ → Memory → Type 0
SamePage p m q m' = (i : ℕ) → i < 4096 → m (p + i) ≡ m' (q + i)

-- The key handler's switch: the copies, and then the new number.
abbrev pub switch_to : ℕ → Keyboard → Keyboard
switch_to new k = set_display_term new (change_display_terminal new k)

-- Between two terminals a switch saves the screen, the line and the caps lock of the old one, and
-- brings those of the new one; the page of a third terminal stays as it is.
pub switch_to_lem :
    (k : Keyboard) (new : ℕ)
    → k.con.display < 3
    → new < 3
    → k.con.display ≢ new
    → let k' = switch_to new k in
      (k'.con.display ≡ new)
      × SamePage video_start k'.con.video (terminal_vidmem new) k.con.video
      × SamePage (terminal_vidmem k.con.display) k'.con.video video_start k.con.video
      × SameLine k'.keyboard_buf (k.con.terminals new).keyboard_buf
      × SameLine (k'.con.terminals k.con.display).keyboard_buf k.keyboard_buf
      × (k'.caps_flag ≡ (k.con.terminals new).caps_flag)
      × ((k'.con.terminals k.con.display).caps_flag ≡ k.caps_flag)
      × ((t : ℕ)
          → t < 3
          → t ≢ k.con.display
          → t ≢ new
          → SamePage (terminal_vidmem t) k'.con.video (terminal_vidmem t) k.con.video)
unfolding change_display_terminal set_display_term
switch_to_lem k new lo ln ne = (
  refl,
  λ i l. ground (
    arith,
    terminal_vidmem-eq k.con.display lo,
    terminal_vidmem-eq new ln,
    swap_pages_lem k.con.display new k.con.video (video_start + i) lo ln ne,
  ),
  λ i l. ground (
    arith,
    terminal_vidmem-eq k.con.display lo,
    terminal_vidmem-eq new ln,
    swap_pages_lem k.con.display new k.con.video (terminal_vidmem k.con.display + i) lo ln ne,
  ),
  λ i l. ground arith,
  λ i l. ground arith,
  ground arith,
  ground arith,
  λ t lt o n i l. ground (
    arith,
    terminal_vidmem-eq k.con.display lo,
    terminal_vidmem-eq new ln,
    terminal_vidmem-eq t lt,
    swap_pages_lem k.con.display new k.con.video (terminal_vidmem t + i) lo ln ne,
  ),
)

-- Switching to another terminal and back brings back the screen, the line and the caps lock.
pub switch_to_back :
    (k : Keyboard) (new : ℕ)
    → k.con.display < 3
    → new < 3
    → k.con.display ≢ new
    → let k' = switch_to k.con.display (switch_to new k) in
      (k'.con.display ≡ k.con.display)
      × SamePage video_start k'.con.video video_start k.con.video
      × SameLine k'.keyboard_buf k.keyboard_buf
      × (k'.caps_flag ≡ k.caps_flag)
switch_to_back k new lo ln ne =
    let k1 = switch_to new k in
    let there = switch_to_lem k new lo ln ne in
    let back = switch_to_lem k1 k.con.display (rw there.0 ln) lo (rw there.0 (λ e. ne (sym e))) in
    (back.0, λ i l. back.1 i l ∙ there.2 i l, λ i l. back.3 i l ∙ there.4 i l, back.5 ∙ there.6)
