-- ===== src/Programs/Pingpong.antt =====
-- syscalls/ece391pingpong.c, over the system calls.
pub mod Frames
pub mod Shown
pub mod Kernel
use fuzzy_os.Base.{
  List, Memory, Option, Word, [], if◌then◌else◌, slice, some, suc, update, zero, ℕ, ◌%◌, ◌+◌, ◌-◌,
  ◌/◌, ◌==◌, ◌>>=◌, ◌∷◌,
}
use fuzzy_os.Programs.Calls.{Calls}
use fuzzy_os.Programs.Support.{fdputs}

-- `buf[i] = ' '` from index `i` on, `n` times
unfoldable pub spaces_from : ℕ → ℕ → Memory → Memory
spaces_from zero i buf = buf
spaces_from (suc n) i buf = spaces_from n (i + 1) (update buf i 32)

-- The buffer before the game: spaces, then the walls and the end of the line.
unfoldable pub walls : Memory → Memory
unfolding spaces_from
walls buf = update (update (update (update (spaces_from 81 0 buf) 80 0) 79 10) 78 124) 1 124

-- `ret_val` as the four bytes behind `&ret_val`
abbrev pub dword_at : ℕ → Memory
dword_at v i =
    if i == 0
    then v % 256
    else if i == 1
    then v / 256 % 256
    else if i == 2
    then v / 65536 % 256
    else v / 16777216 % 256

-- "rtc"
abbrev pub rtc_name : List ℕ
rtc_name = 114 ∷ 116 ∷ 99 ∷ []

-- The letter of the next round.
unfoldable pub next_letter : ℕ → ℕ
next_letter curchar = if curchar == 90 then 65 else (curchar + 1) % 256

module _ {S : Type 0} (calls : Calls S) where
  -- One step of the ball, to column `j`; the result is the buffer, and what is behind `&garbage`.
  unfoldable pub draw_at : Word → ℕ → ℕ → Memory → Memory → S → Option (Memory × Memory × S)
  unfolding spaces_from
  draw_at rtc_fd curchar j buf garbage st = do
    let drawn : Memory = update (spaces_from 76 2 buf) j curchar
    st1 ← fdputs calls 1 (slice drawn 0 81) st
    r ← calls.read_call rtc_fd garbage 4 st1
    some (drawn, r.1, r.2)

  -- The loop that moves out, from column `j` on with `n` rounds left.
  unfoldable pub move_out : ℕ → ℕ → Word → ℕ → Memory → Memory → S → Option (Memory × Memory × S)
  unfolding draw_at
  move_out zero j rtc_fd curchar buf garbage st = some (buf, garbage, st)
  move_out (suc n) j rtc_fd curchar buf garbage st = do
    r ← draw_at rtc_fd curchar j buf garbage st
    move_out n (j + 1) rtc_fd curchar (r.0) (r.1) (r.2)

  -- The loop that bounces back, down from column `j`.
  unfoldable pub bounce_back : ℕ → ℕ → Word → ℕ → Memory → Memory → S → Option (Memory × Memory × S)
  unfolding draw_at
  bounce_back zero j rtc_fd curchar buf garbage st = some (buf, garbage, st)
  bounce_back (suc n) j rtc_fd curchar buf garbage st = do
    r ← draw_at rtc_fd curchar j buf garbage st
    bounce_back n (j - 1) rtc_fd curchar (r.0) (r.1) (r.2)

  -- The first `n` rounds of the loop of main, which has no end.
  unfoldable pub game : ℕ → Word → ℕ → Memory → Memory → S → Option (ℕ × Memory × Memory × S)
  unfolding move_out bounce_back next_letter
  game zero rtc_fd curchar buf garbage st = some (curchar, buf, garbage, st)
  game (suc n) rtc_fd curchar buf garbage st = do
    a ← move_out 76 2 rtc_fd curchar buf garbage st
    b ← bounce_back 76 77 rtc_fd curchar (a.0) (a.1) (a.2)
    game n rtc_fd (next_letter curchar) (b.0) (b.1) (b.2)

  -- main, up to the end of round `n`
  unfoldable pub pingpong_main : ℕ → Memory → Memory → S → Option (ℕ × Memory × Memory × S)
  unfolding game walls
  pingpong_main n buf garbage st = do
    o ← calls.open_call rtc_name st
    w ← calls.write_call (o.0) (dword_at 32) 4 (o.1)
    game n (o.0) 65 (walls buf) garbage (w.1)
