-- ===== src/Console/Scroll.antt =====
-- What scroll_down of student-distrib/lib.c does to a page of 25 rows of 80 cells.
use fuzzy_os.Base.{
  Memory, arith, if◌then◌else◌, leb, ltb, suc, update, zero, ℕ, ◌%◌, ◌&&◌, ◌*◌, ◌+◌, ◌-◌, ◌<◌, ◌==◌,
  ◌≡◌, ◌≤◌, ◌⊎◌,
}
use fuzzy_os.Clib.Blocks.{memcpy}
use fuzzy_os.Clib.Moves.{memcpy_lem}
use fuzzy_os.Console.{blank_from, scroll_page}

blank_from_lem :
    (vidmem : ℕ) (m : Memory) (k i x : ℕ)
    → blank_from vidmem m k i x ≡ (
        if leb (vidmem + (1920 + i) * 2) x
          && ltb x (vidmem + (1920 + i + k) * 2)
          && (x - vidmem) % 2 == 0
        then 32
        else m x)
unfolding blank_from
blank_from_lem vidmem m zero i x = ground arith
blank_from_lem vidmem m (suc k) i x =
    ground (arith, blank_from_lem vidmem (update m (vidmem + (1920 + i) * 2) 32) k (i + 1) x)

-- The byte at offset `i` of a page that has been scrolled: that of the row below, and in the last
-- row a blank with the colour that stood there.
abbrev pub scrolled : ℕ → Memory → ℕ → ℕ
scrolled vidmem m i =
    if ltb i 3840 then m (vidmem + 160 + i) else if i % 2 == 0 then 32 else m (vidmem + i)

-- Scrolling moves every row one up, blanks the last row, and changes nothing outside the page.
pub scroll_page_lem :
    (vidmem : ℕ) (m : Memory)
    → ((i : ℕ) → i < 4000 → scroll_page vidmem m (vidmem + i) ≡ scrolled vidmem m i)
      × ((x : ℕ) → (x < vidmem) ⊎ (vidmem + 4000 ≤ x) → scroll_page vidmem m x ≡ m x)
unfolding scroll_page
scroll_page_lem vidmem m = (
  λ i h. ground (
    arith,
    blank_from_lem vidmem (memcpy m vidmem (vidmem + 160) 3840) 80 0 (vidmem + i),
    memcpy_lem m vidmem (vidmem + 160) 3840 (vidmem + i),
  ),
  λ x h. ground (
    arith,
    blank_from_lem vidmem (memcpy m vidmem (vidmem + 160) 3840) 80 0 x,
    memcpy_lem m vidmem (vidmem + 160) 3840 x,
  ),
)
