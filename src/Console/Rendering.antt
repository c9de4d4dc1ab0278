-- ===== src/Console/Rendering.antt =====
-- What printf of student-distrib/lib.c prints, told from the pieces that a format consists of.
use fuzzy_os.Base.{
  List, Word, [], if◌then◌else◌, length, ltb, suc, zero, ℕ, ◌%◌, ◌++◌, ◌+◌, ◌-◌, ◌^◌, ◌∷◌, ◌≢◌,
}
use fuzzy_os.Clib.Radix.{numeral}

-- A piece of a format: a character, and the conversions.
pub data Piece : Type 0 where
  literal : ℕ → Piece
  percent : Piece
  hex : Piece
  padded_hex : Piece
  unsigned : Piece
  signed : Piece
  character : Piece
  text : Piece

-- A piece as it is written.
abbrev pub spelling : Piece → List ℕ
spelling (literal c) = c ∷ []
spelling percent = 37 ∷ 37 ∷ []
spelling hex = 37 ∷ 120 ∷ []
spelling padded_hex = 37 ∷ 35 ∷ 120 ∷ []
spelling unsigned = 37 ∷ 117 ∷ []
spelling signed = 37 ∷ 100 ∷ []
spelling character = 37 ∷ 99 ∷ []
spelling text = 37 ∷ 115 ∷ []

abbrev pub format_of : List Piece → List ℕ
format_of [] = []
format_of (p ∷ ps) = spelling p ++ format_of ps

-- A literal character is neither a percent sign nor the NUL.
abbrev pub IsLiteral : Piece → Type 0
IsLiteral (literal c) = (c ≢ 37) × (c ≢ 0)
IsLiteral percent = Unit
IsLiteral hex = Unit
IsLiteral padded_hex = Unit
IsLiteral unsigned = Unit
IsLiteral signed = Unit
IsLiteral character = Unit
IsLiteral text = Unit

abbrev pub AllLiteral : List Piece → Type 0
AllLiteral [] = Unit
AllLiteral (p ∷ ps) = IsLiteral p × AllLiteral ps

-- A text without a percent sign.
abbrev pub IsPlain : List ℕ → Type 0
IsPlain [] = Unit
IsPlain (c ∷ s) = (c ≢ 37) × IsPlain s

-- How many arguments a piece takes.
abbrev pub arity : Piece → ℕ
arity (literal c) = 0
arity percent = 0
arity hex = 1
arity padded_hex = 1
arity unsigned = 1
arity signed = 1
arity character = 1
arity text = 1

abbrev pub zeros : ℕ → List ℕ
zeros zero = []
zeros (suc n) = 48 ∷ zeros n

-- A word as an `int` in decimal, and in eight hexadecimal digits.
abbrev pub signed_numeral : Word → List ℕ
signed_numeral v = if ltb v (2 ^ 31) then numeral 10 v else 45 ∷ numeral 10 (2 ^ 32 - v)

abbrev pub padded_numeral : Word → List ℕ
padded_numeral v = zeros (8 - length (numeral 16 v)) ++ numeral 16 v

module _ (text_at : Word → List ℕ) (esp : ℕ → Word) where
  -- What a piece prints, with the argument `esp i`.
  abbrev pub render : ℕ → Piece → List ℕ
  render i (literal c) = c ∷ []
  render i percent = 37 ∷ []
  render i hex = numeral 16 (esp i)
  render i padded_hex = padded_numeral (esp i)
  render i unsigned = numeral 10 (esp i)
  render i signed = signed_numeral (esp i)
  render i character = (esp i % 256) ∷ []
  render i text = text_at (esp i)

  abbrev pub render_all : ℕ → List Piece → List ℕ
  render_all i [] = []
  render_all i (p ∷ ps) = render i p ++ render_all (i + arity p) ps
