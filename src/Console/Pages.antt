-- ===== src/Console/Pages.antt =====
-- Where the screen driver writes: each terminal stays inside its own page
-- (student-distrib/lib.c, student-distrib/system_call.c).
use fuzzy_os.Base.{
  Bool-cases, Memory, arith, if◌then◌else◌, inl, inr, minus_one, refl, suc, zero, ℕ, ◌*◌, ◌+◌, ◌<◌,
  ◌==◌, ◌∙◌, ◌≡◌, ◌≢◌, ◌≤◌, ◌⊎◌,
}
use fuzzy_os.Console.{
  Console, put_at, putc, scroll_down, scroll_if_full, terminal_putc, terminal_vidmem, video_start,
}
use fuzzy_os.Console.Bounds.{AllOnScreen, OnScreen}
use fuzzy_os.Console.Scroll.{scroll_page_lem}

-- The two memories agree outside the 4000 bytes of the page at `vidmem`.
abbrev pub AgreeOutside : ℕ → Memory → Memory → Type 0
AgreeOutside vidmem m m' = (x : ℕ) → (x < vidmem) ⊎ (vidmem + 4000 ≤ x) → m' x ≡ m x

put_at-AgreeOutside :
    (ch t vidmem : ℕ) (c : Console)
    → OnScreen (c.terminals t)
    → AgreeOutside vidmem c.video (put_at ch t vidmem c).video
unfolding put_at
put_at-AgreeOutside ch t vidmem c h x o = ground arith

scroll_if_full-AgreeOutside :
    (flag execute vidmem t : ℕ) (c : Console)
    → AgreeOutside vidmem c.video (scroll_if_full flag execute vidmem t c).video
unfolding scroll_if_full scroll_down
scroll_if_full-AgreeOutside flag execute vidmem t c x o =
    ground (arith, (scroll_page_lem vidmem c.video).1 x)

-- putc writes only to the screen's 4000 bytes.
pub putc-AgreeOutside :
    (ch : ℕ) (c : Console) → AllOnScreen c → AgreeOutside video_start c.video (putc ch c).video
unfolding putc
putc-AgreeOutside ch c h x o =
    let c' = record c { video_mem = video_start } in
    scroll_if_full-AgreeOutside 1 minus_one video_start c.display
      (put_at ch c.display video_start c') x o
    ∙ put_at-AgreeOutside ch c.display video_start c' (h c.display) x o

-- The page that a terminal's output goes to.
abbrev pub page_of : Console → ℕ → ℕ
page_of c t = if t == c.display then video_start else terminal_vidmem t

-- terminal_putc writes only to the page of its own terminal: the screen if that terminal is on
-- display, and its saved page if not.
pub terminal_putc-AgreeOutside :
    (ch t : ℕ) (c : Console)
    → AllOnScreen c
    → AgreeOutside (page_of c t) c.video (terminal_putc ch t c).video
unfolding terminal_putc
terminal_putc-AgreeOutside ch t c h x o = elim (Bool-cases (t == c.display)) [
  | inl e ↦ ground (
    arith,
    scroll_if_full-AgreeOutside 1 t video_start t (put_at ch t video_start c) x,
    put_at-AgreeOutside ch t video_start c (h t) x,
  )
  | inr e ↦ ground (
    arith,
    scroll_if_full-AgreeOutside 0 t (terminal_vidmem t) t (put_at ch t (terminal_vidmem t) c) x,
    put_at-AgreeOutside ch t (terminal_vidmem t) c (h t) x,
  )
]

pub terminal_vidmem-eq : (t : ℕ) → t < 3 → terminal_vidmem t ≡ 0xB9000 + 4096 * t
terminal_vidmem-eq zero h = refl
terminal_vidmem-eq (suc zero) h = refl
terminal_vidmem-eq (suc (suc zero)) h = refl
terminal_vidmem-eq (suc (suc (suc t))) h = absurd (omega arith)

-- On the terminal on display terminal_putc and putc print alike: the same text memory and the same
-- cursors.
pub terminal_putc-putc :
    (ch : ℕ) (c : Console)
    → ((terminal_putc ch c.display c).video ≡ (putc ch c).video)
      × ((terminal_putc ch c.display c).terminals ≡ (putc ch c).terminals)
unfolding terminal_putc putc scroll_if_full scroll_down put_at
terminal_putc-putc ch c = ground arith

-- Output of a terminal in the background changes neither the screen nor the saved page of another
-- terminal.
pub background_output :
    (ch t : ℕ) (c : Console)
    → AllOnScreen c
    → t < 3
    → t ≢ c.display
    → ((i : ℕ)
        → i < 4000
        → (terminal_putc ch t c).video (video_start + i) ≡ c.video (video_start + i))
      × ((u i : ℕ)
          → u < 3
          → u ≢ t
          → i < 4000
          → (terminal_putc ch t c).video (terminal_vidmem u + i) ≡ c.video (terminal_vidmem u + i))
background_output ch t c h lt ne = (
  λ i l.
      ground
        (arith, terminal_vidmem-eq t lt, terminal_putc-AgreeOutside ch t c h (video_start + i)),
  λ u i ul un l. ground (
    arith,
    terminal_vidmem-eq t lt,
    terminal_vidmem-eq u ul,
    terminal_putc-AgreeOutside ch t c h (terminal_vidmem u + i),
  ),
)
