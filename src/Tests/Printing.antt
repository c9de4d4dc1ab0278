-- ===== src/Tests/Printing.antt =====
-- Numerals and formats (student-distrib/lib.c, itoa and printf).
use fuzzy_os.Base.{
  List, Word, [], arith, if◌then◌else◌, refl, slice, some, ℕ, ◌-◌, ◌==◌, ◌^◌, ◌∷◌, ◌≡◌,
}
use fuzzy_os.Clib.Printing.{read_from-itoa}
use fuzzy_os.Clib.Radix.{digits, numeral, read_from}
use fuzzy_os.Clib.Strings.{itoa, text_of}
use fuzzy_os.Console.{puts}
use fuzzy_os.Console.Formats.{printf-format_of}
use fuzzy_os.Console.Printf.{printf}
use fuzzy_os.Console.Rendering.{Piece, literal, padded_hex, render_all, signed}
use fuzzy_os.Tests.Machine.{blank, console0}

read_from-itoa_example : read_from 16 0 (text_of (slice (itoa 48879 blank 16) 0 33)) ≡ 48879
read_from-itoa_example = read_from-itoa 48879 16 blank (omega arith) (omega arith) (omega arith)

-- "%d:%#x", of -2 and 14: "-2:0000000E"
abbrev pieces : List Piece
pieces = signed ∷ literal 58 ∷ padded_hex ∷ []

abbrev arguments : ℕ → Word
arguments i = if i == 0 then 2 ^ 32 - 2 else 14

shown_pieces :
    render_all (λ a. []) arguments 0 pieces
    ≡ 45 ∷ 50 ∷ 58 ∷ 48 ∷ 48 ∷ 48 ∷ 48 ∷ 48 ∷ 48 ∷ 48 ∷ 69 ∷ []
unfolding numeral digits
shown_pieces = refl

printf-format_of_example :
    printf (λ a. []) arguments (λ i. blank) (37 ∷ 100 ∷ 58 ∷ 37 ∷ 35 ∷ 120 ∷ []) console0
    ≡ some (6, puts (render_all (λ a. []) arguments 0 pieces) console0)
printf-format_of_example =
    printf-format_of (λ a. []) arguments (λ i. blank) pieces console0
      (tt, ((ground arith, ground arith), (tt, tt))) (λ j. ground arith)
