-- ===== src/Console/Printf.antt =====
-- printf of student-distrib/lib.c. The arguments behind the format are the words `esp 0`, `esp 1`
-- and so on; `text_at` is the text at an address, and `conv i` what the conversion buffer for the
-- argument `i` holds before it is written.
use fuzzy_os.Base.{
  List, Memory, Option, Word, [], if◌then◌else◌, leb, none, slice, slt, some, sub32, suc, update,
  zero, ℕ, ◌%◌, ◌+◌, ◌-◌, ◌==◌, ◌∷◌,
}
use fuzzy_os.Clib.Strings.{itoa, strlen, text_of}
use fuzzy_os.Console.{Console, putc, puts}

-- Where the loop stands: at a character of the text, or behind a `%`, with `alternate`.
pub data Mode : Type 0 where
  plain : Mode
  conversion : ℕ → Mode

-- The memory from `p + k` on, and the memory with that part written.
abbrev pub behind : Memory → ℕ → Memory
behind m k x = m (k + x)

abbrev pub with_behind : Memory → ℕ → Memory → Memory
with_behind m k part x = if leb k x then part (x - k) else m x

-- `while (i < 8) { conv_buf[i] = '0'; i++; }`, with `k = 8 - i`
unfoldable pub zeros_from : Memory → ℕ → ℕ → Memory
zeros_from m zero i = m
zeros_from m (suc k) i = zeros_from (update m i 48) k (i + 1)

-- `%x`; the alternate form writes the digits at `&conv_buf[8]` and zeros in front of them.
unfoldable pub put_hex : ℕ → Memory → Word → Console → Console
unfolding zeros_from
put_hex alternate conv v c =
    if alternate == 0
    then puts (text_of (slice (itoa v conv 16) 0 64)) c
    else (let m : Memory = with_behind conv 8 (itoa v (behind conv 8) 16) in
        let starting_index : ℕ = strlen (slice m 8 56) in
        puts
          (text_of (
            slice (zeros_from m (8 - starting_index) starting_index) starting_index
              (64 - starting_index)))
          c)

-- `%u`
unfoldable pub put_unsigned : Memory → Word → Console → Console
put_unsigned conv v c = puts (text_of (slice (itoa v conv 10) 0 36)) c

-- `%d`
unfoldable pub put_signed : Memory → Word → Console → Console
put_signed conv v c =
    if slt v 0
    then (let m : Memory = update conv 0 45 in
        puts (text_of (slice (with_behind m 1 (itoa (sub32 0 v) (behind m 1) 10)) 0 36)) c)
    else puts (text_of (slice (itoa v conv 10) 0 36)) c

module _ (text_at : Word → List ℕ) (esp : ℕ → Word) (conv : ℕ → Memory) where
  -- The inner switch, at `alternate`: what comes next, the argument that is next, and the screen.
  unfoldable pub convert : ℕ → ℕ → ℕ → Console → Mode × ℕ × Console
  unfolding put_hex put_unsigned put_signed
  convert alternate ch i c =
      if ch == 37
      then (plain, i, putc 37 c)
      else if ch == 35
      then (conversion 1, i, c)
      else if ch == 120
      then (plain, i + 1, put_hex alternate (conv i) (esp i) c)
      else if ch == 117
      then (plain, i + 1, put_unsigned (conv i) (esp i) c)
      else if ch == 100
      then (plain, i + 1, put_signed (conv i) (esp i) c)
      else if ch == 99
      then (plain, i + 1, putc (esp i % 256) c)
      else if ch == 115
      then (plain, i + 1, puts (text_at (esp i)) c)
      else (plain, i, c)

  -- The outer switch.
  unfoldable pub print_char : Mode → ℕ → ℕ → Console → Mode × ℕ × Console
  unfolding convert
  print_char plain ch i c = if ch == 37 then (conversion 0, i, c) else (plain, i, putc ch c)
  print_char (conversion alternate) ch i c = convert alternate ch i c

  -- The loop, `n` characters behind the format's begin. A format that ends behind a `%` is read
  -- past its NUL, which is `none`.
  unfoldable pub printf_from : Mode → List ℕ → ℕ → ℕ → Console → Option (ℕ × Console)
  unfolding print_char
  printf_from plain [] i n c = some (n, c)
  printf_from (conversion alternate) [] i n c = none
  printf_from mode (ch ∷ s) i n c =
      printf_from (print_char mode ch i c).0 s (print_char mode ch i c).1 (n + 1)
        (print_char mode ch i c).2

  -- printf, of the characters before the format's NUL
  unfoldable pub printf : List ℕ → Console → Option (ℕ × Console)
  unfolding printf_from
  printf format c = printf_from plain format 0 0 c
