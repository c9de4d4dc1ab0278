-- ===== src/Programs/Pingpong/Shown.antt =====
-- The rounds of syscalls/ece391pingpong.c over any system calls that show what is written.
use mathlib.Core.List.{append-nil}
use mathlib.Core.Path.{subst}
use fuzzy_os.Base.{
  List, Memory, Word, [], ap, arith, bind_some, bytes, refl, slice, some, suc, sym, update, zero, ℕ,
  ◌++◌, ◌+◌, ◌-◌, ◌<◌, ◌∙◌, ◌∷◌, ◌≡◌, ◌≢◌, ◌≤◌,
}
use fuzzy_os.Clib.Copy.{get_or-slice}
use fuzzy_os.Clib.Texts.{strlen-slice_at}
use fuzzy_os.Programs.Calls.{Calls}
use fuzzy_os.Programs.Pingpong.{
  bounce_back, draw_at, dword_at, game, move_out, pingpong_main, rtc_name, spaces_from, walls,
}
use fuzzy_os.Programs.Pingpong.Frames.{
  IsWorld, drawn-IsWorld, drawn-frame_char, frame, frame_char, leftwards, letter,
  next_letter-letter, rightwards, rounds, walls-IsWorld,
}
use fuzzy_os.Programs.Strings.{strlen_same}
use fuzzy_os.Programs.Support.{ece391_strlen, fdputs}

-- What the game needs of the calls in the states that are `Good`: descriptor 1 shows what is written,
-- and the clock ticks; and the state stays one.
pub record IsScreen {S : Type 0} (calls : Calls S) (clock : Word) (Good : S → Type 0)
    (Shown : List ℕ → S → S → Type 0) : Type 0 where
  pub shows :
      (buf : Memory) (n : ℕ) (s : S)
      → Good s
      → n ≤ 128
      → (r : Word) × (s' : S) × (calls.write_call 1 buf n s ≡ some (r, s'))
        × Good s'
        × Shown (slice buf 0 n) s s'
  pub ticks :
      (buf : Memory) (s : S)
      → Good s
      → (r : Word) × (buf' : Memory) × (s' : S) × (calls.read_call clock buf 4 s
          ≡ some (r, buf', s'))
        × Good s'
        × Shown [] s s'
  pub stays : (s : S) → Shown [] s s
  pub joins : (a b : List ℕ) (s t u : S) → Shown a s t → Shown b t u → Shown (a ++ b) s u

slice_ext :
    (m m' : Memory) (a n : ℕ)
    → ((i : ℕ) → i < n → m (a + i) ≡ m' (a + i))
    → slice m a n ≡ slice m' a n
slice_ext m m' a zero h = refl
slice_ext m m' a (suc n) h =
    let e : m a ≡ m' a = ground (arith, h 0) in
    rw e (ap (λ s. m' a ∷ s) (slice_ext m m' (a + 1) n (λ i l. ground (arith, h (suc i)))))

frame_char_ne_zero : (c j i : ℕ) → c ≢ 0 → frame_char c j i ≢ 0
frame_char_ne_zero c j i h = ground (arith, h)

-- A buffer that is shown as one line.
shown_frame :
    (buf : Memory) (c j : ℕ)
    → c ≢ 0
    → ((i : ℕ) → i < 80 → buf i ≡ frame_char c j i)
    → buf 80 ≡ 0
    → (ece391_strlen (slice buf 0 81) ≡ 80) × (slice (bytes (slice buf 0 81)) 0 80 ≡ frame c j)
shown_frame buf c j h same z = (
  strlen_same (slice buf 0 81)
      ∙ strlen-slice_at buf 0 80 81
          (λ i l.
            (let at : 0 + i ≡ i = omega arith in rw (at, same i l) (frame_char_ne_zero c j i h)))
          z (omega arith),
  slice_ext (bytes (slice buf 0 81)) (frame_char c j) 0 80 (λ i l.
      (let at : 0 + i ≡ i = omega arith in
        rw at (get_or-slice buf 0 81 i (omega arith) ∙ rw at (same i l)))),
)

draw_at_of :
    {S : Type 0} (calls : Calls S) (clock : Word) (c j n : ℕ) (r r2 : Word) (buf garbage g : Memory)
    (s s1 s2 : S)
    → ece391_strlen (slice (update (spaces_from 76 2 buf) j c) 0 81) ≡ n
    → calls.write_call 1 (bytes (slice (update (spaces_from 76 2 buf) j c) 0 81)) n s ≡ some (r, s1)
    → calls.read_call clock garbage 4 s1 ≡ some (r2, g, s2)
    → draw_at calls clock c j buf garbage s ≡ some (update (spaces_from 76 2 buf) j c, g, s2)
unfolding draw_at fdputs
draw_at_of calls clock c j n r r2 buf garbage g s s1 s2 len e e2 = rw (len, e) (rw e2 refl)

module _ {S : Type 0} (calls : Calls S) (clock : Word) (Good : S → Type 0)
    (Shown : List ℕ → S → S → Type 0) (screen : IsScreen calls clock Good Shown) where
  draw_at-Shown :
      (c j : ℕ) (buf garbage : Memory) (s : S)
      → c ≢ 0
      → 2 ≤ j
      → j ≤ 77
      → IsWorld buf
      → Good s
      → (buf' : Memory) × (garbage' : Memory) × (s' : S) × (draw_at calls clock c j buf garbage s
          ≡ some (buf', garbage', s'))
        × IsWorld buf'
        × Good s'
        × Shown (frame c j) s s'
  draw_at-Shown c j buf garbage s h lo hi w good =
      let drawn : Memory = update (spaces_from 76 2 buf) j c in
      let w' : IsWorld drawn = drawn-IsWorld buf c j lo hi w in
      let (len, same) =
        shown_frame drawn c j h (λ i l. drawn-frame_char buf c j i lo hi l w) w'.ended in
      let (r, s1, e, good1, sh) = screen.shows (bytes (slice drawn 0 81)) 80 s good (omega arith) in
      let (r2, g, s2, e2, good2, sh2) = screen.ticks garbage s1 good1 in
      (
        drawn,
        g,
        s2,
        draw_at_of calls clock c j 80 r r2 buf garbage g s s1 s2 len e e2,
        w',
        good2,
        subst (λ t. Shown t s s2) (append-nil (frame c j))
            (screen.joins (frame c j) [] s s1 s2 (subst (λ t. Shown t s s1) same sh) sh2),
      )

  move_out-Shown :
      (n c j : ℕ) (buf garbage : Memory) (s : S)
      → c ≢ 0
      → 2 ≤ j
      → j + n ≤ 78
      → IsWorld buf
      → Good s
      → (buf' : Memory) × (garbage' : Memory) × (s' : S) × (move_out calls n j clock c buf garbage s
          ≡ some (buf', garbage', s'))
        × IsWorld buf'
        × Good s'
        × Shown (rightwards c n j) s s'
  unfolding move_out
  move_out-Shown zero c j buf garbage s h lo hi w good =
      (buf, garbage, s, refl, w, good, screen.stays s)
  move_out-Shown (suc n) c j buf garbage s h lo hi w good =
      let (b, g, s1, e, w1, good1, sh) =
        draw_at-Shown c j buf garbage s h lo (omega arith) w good in
      let (b2, g2, s2, e2, w2, good2, sh2) =
        move_out-Shown n c (j + 1) b g s1 h (omega arith) (omega arith) w1 good1 in
      (
        b2,
        g2,
        s2,
        rw e e2,
        w2,
        good2,
        screen.joins (frame c j) (rightwards c n (j + 1)) s s1 s2 sh sh2,
      )

  bounce_back-Shown :
      (n c j : ℕ) (buf garbage : Memory) (s : S)
      → c ≢ 0
      → n < j
      → j ≤ 77
      → IsWorld buf
      → Good s
      → (buf' : Memory) × (garbage' : Memory) × (s' : S) × (bounce_back calls n j clock c buf
            garbage s
          ≡ some (buf', garbage', s'))
        × IsWorld buf'
        × Good s'
        × Shown (leftwards c n j) s s'
  unfolding bounce_back
  bounce_back-Shown zero c j buf garbage s h lo hi w good =
      (buf, garbage, s, refl, w, good, screen.stays s)
  bounce_back-Shown (suc n) c j buf garbage s h lo hi w good =
      let (b, g, s1, e, w1, good1, sh) =
        draw_at-Shown c j buf garbage s h (omega arith) hi w good in
      let (b2, g2, s2, e2, w2, good2, sh2) =
        bounce_back-Shown n c (j - 1) b g s1 h (omega arith) (omega arith) w1 good1 in
      (
        b2,
        g2,
        s2,
        rw e e2,
        w2,
        good2,
        screen.joins (frame c j) (leftwards c n (j - 1)) s s1 s2 sh sh2,
      )

  -- The first `n` rounds come to their end, and show the letters of the alphabet, again and again,
  -- that move between two walls and back, a line for each tick of the clock; the buffer between the
  -- rounds has the walls, the end of the line and the NUL in place.
  pub game-Shown :
      (n k : ℕ) (buf garbage : Memory) (s : S)
      → IsWorld buf
      → Good s
      → (buf' : Memory) × (garbage' : Memory) × (s' : S) × (game calls n clock
            (letter k)
            buf
            garbage
            s
          ≡ some (letter (k + n), buf', garbage', s'))
        × IsWorld buf'
        × Good s'
        × Shown (rounds n k) s s'
  unfolding game
  game-Shown zero k buf garbage s w good = (buf, garbage, s, ground arith, w, good, screen.stays s)
  game-Shown (suc n) k buf garbage s w good =
      let (b, g, s1, e, w1, good1, sh) =
        move_out-Shown 76 (letter k) 2 buf garbage s (omega arith) (omega arith) (omega arith) w
          good in
      let (b2, g2, s2, e2, w2, good2, sh2) =
        bounce_back-Shown 76 (letter k) 77 b g s1 (omega arith) (omega arith) (omega arith) w1
          good1 in
      let (b3, g3, s3, e3, w3, good3, sh3) = game-Shown n (k + 1) b2 g2 s2 w2 good2 in
      let sum : k + 1 + n ≡ k + suc n = omega arith in
      (
        b3,
        g3,
        s3,
        bind_some _ _ _ _ e (bind_some _ _ _ _ e2 (rw (next_letter-letter k, sym sum) e3)),
        w3,
        good3,
        screen.joins (rightwards (letter k) 76 2) (leftwards (letter k) 76 77 ++ rounds n (k + 1)) s
            s1 s3 sh
            (screen.joins (leftwards (letter k) 76 77) (rounds n (k + 1)) s1 s2 s3 sh2 sh3),
      )

  -- Over system calls that show what is written to descriptor 1 and whose clock ticks in the states
  -- that are `Good`, and with the clock opened and set in one, main shows `n` rounds: in each the next letter of the alphabet, which
  -- starts again at A behind Z, moves from the left wall to the right one and back, a line for each
  -- column; the walls, the end of the line and the NUL stay in place.
  pub pingpong_main-Shown :
      (n : ℕ) (r : Word) (buf garbage : Memory) (s s1 s2 : S)
      → calls.open_call rtc_name s ≡ some (clock, s1)
      → calls.write_call clock (dword_at 32) 4 s1 ≡ some (r, s2)
      → Good s2
      → (buf' : Memory) × (garbage' : Memory) × (s' : S) × (pingpong_main calls n buf garbage s
          ≡ some (letter n, buf', garbage', s'))
        × IsWorld buf'
        × Good s'
        × Shown (rounds n 0) s2 s'
  unfolding pingpong_main
  pingpong_main-Shown n r buf garbage s s1 s2 o w good =
      let (b, g, s', e, world, good', sh) =
        game-Shown n 0 (walls buf) garbage s2 (walls-IsWorld buf) good in
      let sum : 0 + n ≡ n = omega arith in
      (
        b,
        g,
        s',
        bind_some _ _ _ _ o (bind_some _ _ _ _ w (rw (sym (ap letter sum)) e)),
        world,
        good',
        sh,
      )
