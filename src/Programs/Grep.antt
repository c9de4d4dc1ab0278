-- ===== src/Programs/Grep.antt =====
-- syscalls/ece391grep.c, over the system calls. `s` is the text that is searched for, and `block` the
-- buffer `data` of 1025 bytes.
pub mod Lines
pub mod Rounds
use fuzzy_os.Base.{
  Bool, List, Memory, Option, Word, [], add32, false, get_or, if◌then◌else◌, ltb, minus_one, none,
  not, sign_extend8, slice, slt, some, sub32, suc, true, update, zero, ℕ, ◌&&◌, ◌+◌, ◌-◌, ◌==◌,
  ◌>>=◌, ◌∷◌,
}
use fuzzy_os.Programs.Calls.{Calls}
use fuzzy_os.Programs.Cat.{fail_with}
use fuzzy_os.Programs.Pingpong.Frames.{rounds}
use fuzzy_os.Programs.Support.{ece391_strcpy, ece391_strlen, ece391_strncmp, fdputs}

-- "file open failed\n"
abbrev pub file_open_failed : List ℕ
file_open_failed =
    102 ∷ 105 ∷ 108 ∷ 101 ∷ 32 ∷ 111 ∷ 112 ∷ 101 ∷ 110 ∷ 32 ∷ 102 ∷ 97 ∷ 105 ∷ 108 ∷ 101 ∷ 100 ∷ 10
    ∷ []

-- "file read failed\n"
abbrev pub file_read_failed : List ℕ
file_read_failed =
    102 ∷ 105 ∷ 108 ∷ 101 ∷ 32 ∷ 114 ∷ 101 ∷ 97 ∷ 100 ∷ 32 ∷ 102 ∷ 97 ∷ 105 ∷ 108 ∷ 101 ∷ 100 ∷ 10
    ∷ []

-- "file close failed\n"
abbrev pub file_close_failed : List ℕ
file_close_failed =
    102 ∷ 105 ∷ 108 ∷ 101 ∷ 32 ∷ 99 ∷ 108 ∷ 111 ∷ 115 ∷ 101 ∷ 32 ∷ 102 ∷ 97 ∷ 105 ∷ 108 ∷ 101 ∷ 100
    ∷ 10 ∷ []

-- "could not read argument\n"
abbrev pub no_argument : List ℕ
no_argument =
    99 ∷ 111 ∷ 117 ∷ 108 ∷ 100 ∷ 32 ∷ 110 ∷ 111 ∷ 116 ∷ 32 ∷ 114 ∷ 101 ∷ 97 ∷ 100 ∷ 32 ∷ 97 ∷ 114
    ∷ 103 ∷ 117 ∷ 109 ∷ 101 ∷ 110 ∷ 116 ∷ 10 ∷ []

-- "directory open failed\n"
abbrev pub directory_open_failed : List ℕ
directory_open_failed =
    100 ∷ 105 ∷ 114 ∷ 101 ∷ 99 ∷ 116 ∷ 111 ∷ 114 ∷ 121 ∷ 32 ∷ 111 ∷ 112 ∷ 101 ∷ 110 ∷ 32 ∷ 102 ∷ 97
    ∷ 105 ∷ 108 ∷ 101 ∷ 100 ∷ 10 ∷ []

-- "directory entry read failed\n"
abbrev pub entry_read_failed : List ℕ
entry_read_failed =
    100 ∷ 105 ∷ 114 ∷ 101 ∷ 99 ∷ 116 ∷ 111 ∷ 114 ∷ 121 ∷ 32 ∷ 101 ∷ 110 ∷ 116 ∷ 114 ∷ 121 ∷ 32 ∷ 114
    ∷ 101 ∷ 97 ∷ 100 ∷ 32 ∷ 102 ∷ 97 ∷ 105 ∷ 108 ∷ 101 ∷ 100 ∷ 10 ∷ []

-- The loop to the end of a line, from index `i` on, with fuel.
unfoldable pub line_end_from : ℕ → Memory → Word → ℕ → ℕ
line_end_from zero block last i = i
line_end_from (suc n) block last i =
    let rest = line_end_from n block last (i + 1) in
    if slt i last && not (block i == 10) then rest else i

-- `block` from index `i` on
abbrev pub data_from : Memory → ℕ → List ℕ
data_from block i = slice block i (1025 - i)

-- Whether the text starts at index `check`. Its first character is a `char`, which has a sign, and
-- is compared with an unsigned byte: one of 128 or more equals none.
unfoldable pub match_at : List ℕ → Memory → ℕ → Bool
match_at s block check =
    (sign_extend8 (get_or s 0 0) == block check)
    && (ece391_strncmp (data_from block check) s (ece391_strlen s) == 0)

-- What `data + last` holds, and the buffer after a read to there.
abbrev pub buffer_at : Memory → ℕ → Memory
buffer_at block last i = block (last + i)

abbrev pub read_to : Memory → ℕ → Memory → Memory
read_to block last got x = if ltb x last then block x else got (x - last)

module _ {S : Type 0} (calls : Calls S) where
  -- `fname:line\n`
  abbrev pub show_line : List ℕ → List ℕ → S → Option S
  show_line fname line st = do
    st1 ← fdputs calls 1 fname st
    st2 ← fdputs calls 1 (58 ∷ []) st1
    st3 ← fdputs calls 1 line st2
    fdputs calls 1 (10 ∷ []) st3

  -- The search of a line, from index `check` on with `n` characters left.
  unfoldable pub search_line : ℕ → List ℕ → List ℕ → Memory → ℕ → ℕ → S → Option S
  unfolding match_at
  search_line zero s fname block line_start check st = some st
  search_line (suc n) s fname block line_start check st =
      let rest = search_line n s fname block line_start (check + 1) st in
      if match_at s block check then show_line fname (data_from block line_start) st else rest

  -- The loop over the lines of the buffer, with fuel: the buffer, and `last`.
  unfoldable pub lines_loop :
      ℕ → List ℕ → List ℕ → Word → Memory → Word → ℕ → S → Option (Memory × Word × S)
  unfolding line_end_from search_line
  lines_loop zero s fname cnt block last line_start st = none
  lines_loop (suc f) s fname cnt block last line_start st =
      let line_end : ℕ = line_end_from (last - line_start) block last line_start in
      let ended : Memory = update block line_end 0 in
      let rest = (do
        st1 ← search_line (line_end - line_start) s fname ended line_start line_start st
        let again = lines_loop f s fname cnt ended last (line_end + 1) st1
        if not (slt (line_end + 1) last) then some (ended, 0, st1) else again) in
      if not (block line_end == 10) && (not (cnt == 0) && not (line_start == 0))
      then some (ece391_strcpy ended 0 (data_from ended line_start), sub32 last line_start, st)
      else rest

  -- The loop over the parts of the file, with fuel: whether every read succeeds.
  unfoldable pub parts_loop : ℕ → List ℕ → List ℕ → Word → Memory → Word → S → Option (Bool × S)
  unfolding lines_loop
  parts_loop zero s fname fd block last st = none
  parts_loop (suc f) s fname fd block last st = do
    r ← calls.read_call fd (buffer_at block last) (sub32 1024 last) st
    if r.0 == minus_one then some (false, r.2) else (do
      l ← lines_loop 1026 s fname (r.0) (read_to block last (r.1)) (add32 last (r.0)) 0 (r.2)
      if r.0 == 0 then some (true, l.2) else parts_loop f s fname fd (l.0) (l.1) (l.2))

  -- do_one_file
  unfoldable pub do_one_file : ℕ → Memory → List ℕ → List ℕ → S → Option (Word × S)
  unfolding parts_loop
  do_one_file fuel block s fname st = do
    o ← calls.open_call fname st
    if o.0 == minus_one then fail_with calls file_open_failed minus_one (o.1) else (do
      p ← parts_loop fuel s fname (o.0) block 0 (o.1)
      if not (p.0) then fail_with calls file_read_failed minus_one (p.1) else (do
        c ← calls.close_call (o.0) (p.1)
        if c.0 == minus_one
            then fail_with calls file_close_failed minus_one (c.1)
            else some (0, c.1)))

  -- The loop of main over the directory, with fuel; `junk` is what the buffer of do_one_file holds at first.
  unfoldable pub entries_loop :
      ℕ → ℕ → (S → Memory) → Word → Memory → List ℕ → S → Option (Word × S)
  unfolding do_one_file
  entries_loop zero fuel junk fd buf search st = none
  entries_loop (suc f) fuel junk fd buf search st = do
    r ← calls.read_call fd buf 32 st
    if r.0 == 0
        then some (0, r.2)
        else if r.0 == minus_one
        then fail_with calls entry_read_failed 3 (r.2)
        else if r.1 0 == 46
        then entries_loop f fuel junk fd (r.1) search (r.2)
        else (do
          let named : Memory = update (r.1) (r.0) 0
          d ← do_one_file fuel (junk (r.2)) search (slice named 0 33) (r.2)
          if not (d.0 == 0) then some (3, d.1) else entries_loop f fuel junk fd named search (d.1))

  -- main
  unfoldable pub grep_main : ℕ → ℕ → (S → Memory) → Memory → Memory → S → Option (Word × S)
  unfolding entries_loop
  grep_main rounds fuel junk buf search st = do
    a ← calls.getargs_call search 1024 st
    if not (a.0 == 0) then fail_with calls no_argument 3 (a.2) else (do
      o ← calls.open_call (46 ∷ []) (a.2)
      if o.0 == minus_one
          then fail_with calls directory_open_failed 2 (o.1)
          else entries_loop rounds fuel junk (o.0) buf (slice (a.1) 0 1024) (o.1))
