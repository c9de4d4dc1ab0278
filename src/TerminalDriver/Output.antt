-- ===== src/TerminalDriver/Output.antt =====
-- terminal_write (student-distrib/Terminal.c) of a program whose terminal is not on display.
use fuzzy_os.Base.{
  Bool-cases, Memory, Word, arith, if◌then◌else◌, inl, inr, refl, slt, some, suc, zero, ℕ, ◌+◌, ◌<◌,
  ◌==◌, ◌^◌, ◌∙◌, ◌≡◌, ◌≢◌,
}
use fuzzy_os.Console.{
  Console, store_deleted_line, terminal_putc, terminal_vidmem, update_cursor, video_start,
}
use fuzzy_os.Console.Bounds.{AllOnScreen, terminal_putc-OnScreen}
use fuzzy_os.Console.Input.{OnlyPrints, OnlyPrints-refl, OnlyPrints-trans, terminal_putc-OnlyPrints}
use fuzzy_os.Console.Pages.{background_output}
use fuzzy_os.TerminalDriver.{terminal_write, write_char, write_from}

-- The screen, and the saved page of every terminal but `t`, hold the same 4000 bytes.
abbrev pub SamePages : ℕ → Memory → Memory → Type 0
SamePages t m m' =
    ((i : ℕ) → i < 4000 → m' (video_start + i) ≡ m (video_start + i))
    × ((u i : ℕ)
        → u < 3
        → u ≢ t
        → i < 4000
        → m' (terminal_vidmem u + i) ≡ m (terminal_vidmem u + i))

-- A call that prints to the page of terminal `t` only, and leaves every cursor on the screen.
record Behind (t : ℕ) (c d : Console) : Type 0 where
  pages : SamePages t c.video d.video
  cursors : AllOnScreen d
  prints : OnlyPrints c d

module _ (t : ℕ) (small : t < 3) where
  Behind-refl : (c : Console) → AllOnScreen c → Behind t c c
  Behind-refl c h = record {
    pages = (λ i l. refl, λ u i a b l. refl);
    cursors = h;
    prints = OnlyPrints-refl c;
  }

  Behind-trans : (a b c : Console) → Behind t a b → Behind t b c → Behind t a c
  Behind-trans a b c p q = record {
    pages = (
      λ i l. q.pages.0 i l ∙ p.pages.0 i l,
      λ u i x y l. q.pages.1 u i x y l ∙ p.pages.1 u i x y l,
    );
    cursors = q.cursors;
    prints = OnlyPrints-trans a b c p.prints q.prints;
  }

  terminal_putc-Behind :
      (ch : ℕ) (c : Console) → AllOnScreen c → t ≢ c.display → Behind t c (terminal_putc ch t c)
  terminal_putc-Behind ch c h ne = record {
    pages = background_output ch t c h small ne;
    cursors = terminal_putc-OnScreen ch t c h;
    prints = terminal_putc-OnlyPrints ch t c;
  }

  put_twice :
      (ch : ℕ) (c : Console)
      → AllOnScreen c
      → t ≢ c.display
      → Behind t c (terminal_putc ch t (terminal_putc ch t c))
  put_twice ch c h ne =
      let one = terminal_putc-Behind ch c h ne in
      Behind-trans c (terminal_putc ch t c) (terminal_putc ch t (terminal_putc ch t c)) one
        (terminal_putc-Behind ch (terminal_putc ch t c) one.cursors (rw one.prints.display ne))

  write_char-Behind :
      (ch : ℕ) (c : Console) → AllOnScreen c → t ≢ c.display → Behind t c (write_char t ch c)
  unfolding write_char
  write_char-Behind ch c h ne = elim (Bool-cases (ch == 0)) [
    | inl nul ↦ rw nul (Behind-refl c h)
    | inr other ↦ elim (Bool-cases (ch == 9)) [
      | inl tab ↦
          (let half = put_twice 32 c h ne in
            let c' = terminal_putc 32 t (terminal_putc 32 t c) in
            rw (other, tab)
              (Behind-trans c c' (terminal_putc 32 t (terminal_putc 32 t c')) half
                (put_twice 32 c' half.cursors (rw half.prints.display ne))))
      | inr plain ↦ rw (other, plain) (terminal_putc-Behind ch c h ne)
    ]
  ]

  write_from-Behind :
      (buf : Memory) (n i : ℕ) (c : Console)
      → AllOnScreen c
      → t ≢ c.display
      → Behind t c (write_from t buf n i c)
  unfolding write_from
  write_from-Behind buf zero i c h ne = Behind-refl c h
  write_from-Behind buf (suc n) i c h ne =
      let one = write_char-Behind (buf i) c h ne in
      Behind-trans c (write_char t (buf i) c) (write_from t buf n (i + 1) (write_char t (buf i) c))
        one
        (write_from-Behind buf n (i + 1) (write_char t (buf i) c) one.cursors
          (rw one.prints.display ne))

-- A write by a program in the background returns the number of bytes asked for, changes neither
-- the screen nor the saved page of another terminal, and keeps every cursor on its screen.
pub terminal_write_background :
    (buf : Memory) (nbytes : Word) (c : Console)
    → AllOnScreen c
    → c.execute < 3
    → c.execute ≢ c.display
    → nbytes < 2 ^ 31
    → let (n, c') = terminal_write (some buf) nbytes c in
      (n ≡ nbytes) × SamePages c.execute c.video c'.video × AllOnScreen c'
unfolding terminal_write update_cursor store_deleted_line
terminal_write_background buf nbytes c h small ne pos =
    let count : (if slt nbytes 0 then 0 else nbytes) ≡ nbytes = ground arith in
    let p = write_from-Behind c.execute small buf nbytes 0 c h ne in
    let c' = write_from c.execute buf nbytes 0 c in
    rw count (refl, p.pages, λ u. ground (arith, p.cursors u, p.cursors c'.display))
