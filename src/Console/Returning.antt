-- ===== src/Console/Returning.antt =====
-- printf of student-distrib/lib.c returns for every format that ends behind a whole conversion, and
-- does no more than print.
use fuzzy_os.Base.{
  Bool, List, Memory, Word, [], arith, false, if◌then◌else◌, refl, slt, some, true, ℕ, ◌%◌, ◌++◌,
  ◌+◌, ◌==◌, ◌∙◌, ◌∷◌, ◌≡◌,
}
use fuzzy_os.Console.{Console, putc, puts}
use fuzzy_os.Console.Input.{
  OnlyPrints, OnlyPrints-refl, OnlyPrints-trans, putc-OnlyPrints, puts-OnlyPrints,
}
use fuzzy_os.Console.Printf.{
  convert, plain, print_char, printf, printf_from, put_hex, put_signed, put_unsigned,
}
use fuzzy_os.Console.Rendering.{
  AllLiteral, IsLiteral, Piece, arity, character, format_of, hex, literal, padded_hex, percent,
  signed, spelling, text, unsigned,
}

if-OnlyPrints :
    (t : Bool) (c x y : Console)
    → OnlyPrints c x
    → OnlyPrints c y
    → OnlyPrints c (if t then x else y)
if-OnlyPrints true c x y p q = p
if-OnlyPrints false c x y p q = q

put_hex-OnlyPrints :
    (alternate : ℕ) (conv : Memory) (v : Word) (c : Console)
    → OnlyPrints c (put_hex alternate conv v c)
unfolding put_hex
put_hex-OnlyPrints alternate conv v c =
    if-OnlyPrints (alternate == 0) c _ _ (puts-OnlyPrints _ c) (puts-OnlyPrints _ c)

put_unsigned-OnlyPrints :
    (conv : Memory) (v : Word) (c : Console) → OnlyPrints c (put_unsigned conv v c)
unfolding put_unsigned
put_unsigned-OnlyPrints conv v c = puts-OnlyPrints _ c

put_signed-OnlyPrints :
    (conv : Memory) (v : Word) (c : Console) → OnlyPrints c (put_signed conv v c)
unfolding put_signed
put_signed-OnlyPrints conv v c =
    if-OnlyPrints (slt v 0) c _ _ (puts-OnlyPrints _ c) (puts-OnlyPrints _ c)

module _ (text_at : Word → List ℕ) (esp : ℕ → Word) (conv : ℕ → Memory) where
  -- One piece of the format.
  printf_from-piece :
      (p : Piece) (s : List ℕ) (i n : ℕ) (c : Console)
      → IsLiteral p
      → (m : ℕ) × (c' : Console) × (printf_from text_at esp conv plain (spelling p ++ s) i n c
          ≡ printf_from text_at esp conv plain s (i + arity p) m c')
        × OnlyPrints c c'
  unfolding printf_from print_char convert
  printf_from-piece (literal ch) s i n c h =
      let q : ch == 37 ≡ false = ground arith in
      let z : i + 0 ≡ i = omega arith in (n + 1, putc ch c, rw (q, z) refl, putc-OnlyPrints ch c)
  printf_from-piece percent s i n c h =
      let z : i + 0 ≡ i = omega arith in (n + 1 + 1, putc 37 c, rw z refl, putc-OnlyPrints 37 c)
  printf_from-piece hex s i n c h =
      (n + 1 + 1, put_hex 0 (conv i) (esp i) c, refl, put_hex-OnlyPrints 0 (conv i) (esp i) c)
  printf_from-piece padded_hex s i n c h =
      (n + 1 + 1 + 1, put_hex 1 (conv i) (esp i) c, refl, put_hex-OnlyPrints 1 (conv i) (esp i) c)
  printf_from-piece unsigned s i n c h =
      (n + 1 + 1, put_unsigned (conv i) (esp i) c, refl, put_unsigned-OnlyPrints (conv i) (esp i) c)
  printf_from-piece signed s i n c h =
      (n + 1 + 1, put_signed (conv i) (esp i) c, refl, put_signed-OnlyPrints (conv i) (esp i) c)
  printf_from-piece character s i n c h =
      (n + 1 + 1, putc (esp i % 256) c, refl, putc-OnlyPrints (esp i % 256) c)
  printf_from-piece text s i n c h =
      (n + 1 + 1, puts (text_at (esp i)) c, refl, puts-OnlyPrints (text_at (esp i)) c)

  printf_from-returns :
      (ps : List Piece) (i n : ℕ) (c : Console)
      → AllLiteral ps
      → (m : ℕ) × (c' : Console) × (printf_from text_at esp conv plain (format_of ps) i n c
          ≡ some (m, c'))
        × OnlyPrints c c'
  unfolding printf_from
  printf_from-returns [] i n c h = (n, c, refl, OnlyPrints-refl c)
  printf_from-returns (p ∷ ps) i n c h =
      let (m, c', e, o) = printf_from-piece p (format_of ps) i n c h.0 in
      let (m', d, e', o') = printf_from-returns ps (i + arity p) m c' h.1 in
      (m', d, e ∙ e', OnlyPrints-trans c c' d o o')

  pub printf-returns :
      (ps : List Piece) (c : Console)
      → AllLiteral ps
      → (m : ℕ) × (c' : Console) × (printf text_at esp conv (format_of ps) c ≡ some (m, c'))
        × OnlyPrints c c'
  unfolding printf
  printf-returns ps c h = printf_from-returns ps 0 0 c h
