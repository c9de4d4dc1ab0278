-- ===== src/Console/Bounds.antt =====
-- The cursor of every terminal stays on the screen, whatever is printed or deleted
-- (student-distrib/lib.c).
use fuzzy_os.Base.{
  ==_iff, Bool-cases, List, [], arith, if◌then◌else◌, inl, inr, minus_one, refl, sym, ℕ, ◌<◌, ◌==◌,
  ◌∙◌, ◌∷◌, ◌≡◌,
}
use fuzzy_os.Console.{
  Console, Terminal, clear, deletec, put_at, putc, puts, reset_cursor, scroll_down, scroll_if_full,
  store_deleted_line, terminal_putc, terminal_vidmem, update_cursor, video_start,
}

-- The cursor lies in the 25 rows of 80 columns, and so does the row that deletion stops at.
pub record OnScreen (term : Terminal) : Type 0 where
  pub column : term.screen_x < 80
  pub row : term.screen_y < 25
  pub saved : term.save_y < 25

abbrev pub AllOnScreen : Console → Type 0
AllOnScreen c = (t : ℕ) → OnScreen (c.terminals t)

-- After the character, and before the screen is scrolled, the row may be one too far.
abbrev NearScreen : ℕ → ℕ → Terminal → Type 0
NearScreen t u term =
    (term.screen_x < 80) × (term.screen_y < (if u == t then 26 else 25)) × (term.save_y < 25)

put_at-NearScreen :
    (ch t vidmem : ℕ) (c : Console)
    → AllOnScreen c
    → (u : ℕ) → NearScreen t u ((put_at ch t vidmem c).terminals u)
unfolding put_at
put_at-NearScreen ch t vidmem c h u = ground (arith, h t, h u)

scroll_if_full-OnScreen :
    (flag execute vidmem t : ℕ) (c : Console)
    → (if flag == 0 then execute else c.display) ≡ t
    → ((u : ℕ) → NearScreen t u (c.terminals u))
    → AllOnScreen (scroll_if_full flag execute vidmem t c)
unfolding scroll_if_full scroll_down
scroll_if_full-OnScreen flag execute vidmem t c e h u = ground (arith, h t, h u)

display-put_at : (ch t vidmem : ℕ) (c : Console) → (put_at ch t vidmem c).display ≡ c.display
unfolding put_at
display-put_at ch t vidmem c = ground arith

-- putc keeps every cursor on the screen.
pub putc-OnScreen : (ch : ℕ) (c : Console) → AllOnScreen c → AllOnScreen (putc ch c)
unfolding putc
putc-OnScreen ch c h =
    let c' = record c { video_mem = video_start } in
    scroll_if_full-OnScreen 1 minus_one video_start c.display (put_at ch c.display video_start c')
      (display-put_at ch c.display video_start c') (put_at-NearScreen ch c.display video_start c' h)

-- So does terminal_putc, on any terminal.
pub terminal_putc-OnScreen :
    (ch t : ℕ) (c : Console) → AllOnScreen c → AllOnScreen (terminal_putc ch t c)
unfolding terminal_putc
terminal_putc-OnScreen ch t c h = elim (Bool-cases (t == c.display)) [
  | inl e ↦ rw e (
      scroll_if_full-OnScreen 1 t video_start t (put_at ch t video_start c)
        (display-put_at ch t video_start c ∙ sym ((==_iff t c.display).0 e))
        (put_at-NearScreen ch t video_start c h))
  | inr e ↦ rw e (
      scroll_if_full-OnScreen 0 t (terminal_vidmem t) t (put_at ch t (terminal_vidmem t) c) refl
        (put_at-NearScreen ch t (terminal_vidmem t) c h))
]

-- Deleting goes back a row only where the row is not the first: never above the screen.
pub deletec-OnScreen : (c : Console) → AllOnScreen c → AllOnScreen (deletec c)
unfolding deletec
deletec-OnScreen c h u = ground (arith, h c.display, h u)

pub puts-OnScreen : (s : List ℕ) (c : Console) → AllOnScreen c → AllOnScreen (puts s c)
unfolding puts
puts-OnScreen [] c h = h
puts-OnScreen (ch ∷ s) c h = puts-OnScreen s (putc ch c) (putc-OnScreen ch c h)

-- One call of the screen driver.
pub data Step : Console → Console → Type 0 where
  put : (ch : ℕ) (c : Console) → Step c (putc ch c)
  put_terminal : (ch t : ℕ) (c : Console) → Step c (terminal_putc ch t c)
  put_text : (s : List ℕ) (c : Console) → Step c (puts s c)
  delete : (c : Console) → Step c (deletec c)
  wipe : (c : Console) → Step c (clear c)
  home : (c : Console) → Step c (reset_cursor c)
  show_cursor : (c : Console) → Step c (update_cursor c)
  keep_line : (c : Console) → Step c (store_deleted_line c)

pub data Reach (c : Console) : Console → Type 0 where
  here : Reach c c
  next : {d e : Console} → Reach c d → Step d e → Reach c e

Step-OnScreen : {c d : Console} → Step c d → AllOnScreen c → AllOnScreen d
unfolding clear reset_cursor update_cursor store_deleted_line
Step-OnScreen (put ch c) h = putc-OnScreen ch c h
Step-OnScreen (put_terminal ch t c) h = terminal_putc-OnScreen ch t c h
Step-OnScreen (put_text s c) h = puts-OnScreen s c h
Step-OnScreen (delete c) h = deletec-OnScreen c h
Step-OnScreen (wipe c) h = h
Step-OnScreen (home c) h = λ u. ground (arith, h c.display, h u)
Step-OnScreen (show_cursor c) h = h
Step-OnScreen (keep_line c) h = λ u. ground (arith, h c.display, h u)

-- No sequence of calls of the screen driver takes the cursor of any terminal off the screen.
pub Reach-OnScreen : {c d : Console} → AllOnScreen c → Reach c d → AllOnScreen d
Reach-OnScreen h here = h
Reach-OnScreen h (next r s) = Step-OnScreen s (Reach-OnScreen h r)
