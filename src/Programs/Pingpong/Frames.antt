-- ===== src/Programs/Pingpong/Frames.antt =====
-- What the game of syscalls/ece391pingpong.c shows.
use fuzzy_os.Base.{
  List, Memory, [], arith, if◌then◌else◌, leb, ltb, refl, slice, suc, update, zero, ℕ, ◌%◌, ◌&&◌,
  ◌++◌, ◌+◌, ◌-◌, ◌<◌, ◌==◌, ◌≡◌, ◌≤◌,
}
use fuzzy_os.Programs.Pingpong.{next_letter, spaces_from, walls}

-- The character in column `i` of the line with the letter `c` at column `j`.
abbrev pub frame_char : ℕ → ℕ → ℕ → ℕ
frame_char c j i =
    if i == j
    then c
    else if i == 1
    then 124
    else if i == 78
    then 124
    else if i == 79
    then 10
    else 32

-- The line: 79 columns with the letter between two walls, and its end.
abbrev pub frame : ℕ → ℕ → List ℕ
frame c j = slice (frame_char c j) 0 80

-- The lines with the letter at `n` columns, from `j` on to the right or to the left.
abbrev pub rightwards : ℕ → ℕ → ℕ → List ℕ
rightwards c zero j = []
rightwards c (suc n) j = frame c j ++ rightwards c n (j + 1)

abbrev pub leftwards : ℕ → ℕ → ℕ → List ℕ
leftwards c zero j = []
leftwards c (suc n) j = frame c j ++ leftwards c n (j - 1)

-- The letter of round `k`: the alphabet, again and again.
abbrev pub letter : ℕ → ℕ
letter k = 65 + k % 26

-- `n` rounds from round `k` on: from wall to wall and back.
abbrev pub rounds : ℕ → ℕ → List ℕ
rounds zero k = []
rounds (suc n) k = rightwards (letter k) 76 2 ++ (leftwards (letter k) 76 77 ++ rounds n (k + 1))

-- What the buffer holds outside of the columns of the ball.
pub record IsWorld (buf : Memory) : Type 0 where
  pub edge : buf 0 ≡ 32
  pub left_wall : buf 1 ≡ 124
  pub right_wall : buf 78 ≡ 124
  pub newline : buf 79 ≡ 10
  pub ended : buf 80 ≡ 0

spaces_from_lem :
    (n i x : ℕ) (buf : Memory)
    → spaces_from n i buf x ≡ (if leb i x && ltb x (i + n) then 32 else buf x)
unfolding spaces_from
spaces_from_lem zero i x buf = ground arith
spaces_from_lem (suc n) i x buf = ground (arith, spaces_from_lem n (i + 1) x (update buf i 32))

pub walls-IsWorld : (buf : Memory) → IsWorld (walls buf)
unfolding walls
walls-IsWorld buf = record {
  edge = spaces_from_lem 81 0 0 buf;
  left_wall = refl;
  right_wall = refl;
  newline = refl;
  ended = refl;
}

pub drawn-IsWorld :
    (buf : Memory) (c j : ℕ)
    → 2 ≤ j
    → j ≤ 77
    → IsWorld buf
    → IsWorld (update (spaces_from 76 2 buf) j c)
drawn-IsWorld buf c j lo hi w = record {
  edge = ground (arith, spaces_from_lem 76 2 0 buf, w.edge);
  left_wall = ground (arith, spaces_from_lem 76 2 1 buf, w.left_wall);
  right_wall = ground (arith, spaces_from_lem 76 2 78 buf, w.right_wall);
  newline = ground (arith, spaces_from_lem 76 2 79 buf, w.newline);
  ended = ground (arith, spaces_from_lem 76 2 80 buf, w.ended);
}

pub drawn-frame_char :
    (buf : Memory) (c j i : ℕ)
    → 2 ≤ j
    → j ≤ 77
    → i < 80
    → IsWorld buf
    → update (spaces_from 76 2 buf) j c i ≡ frame_char c j i
drawn-frame_char buf c j i lo hi l w =
    ground (arith, spaces_from_lem 76 2 i buf, w.edge, w.left_wall, w.right_wall, w.newline)

pub next_letter-letter : (k : ℕ) → next_letter (letter k) ≡ letter (k + 1)
unfolding next_letter
next_letter-letter k = ground arith
