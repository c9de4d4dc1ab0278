-- ===== src/Console/Formats.antt =====
-- printf of student-distrib/lib.c, from the pieces of its format.
use mathlib.Core.Path.{ap₂}
use fuzzy_os.Base.{
  List, Memory, Word, [], ap, arith, false, length, length-append, none, refl, some, sym, ℕ, ◌++◌,
  ◌+◌, ◌<◌, ◌==◌, ◌^◌, ◌∙◌, ◌∷◌, ◌≡◌,
}
use fuzzy_os.Console.{Console, putc, puts}
use fuzzy_os.Console.Padding.{put_hex_padded}
use fuzzy_os.Console.Printed.{put_hex-plain, put_signed_lem, put_unsigned_lem, puts-append}
use fuzzy_os.Console.Printf.{convert, plain, print_char, printf, printf_from}
use fuzzy_os.Console.Rendering.{
  AllLiteral, IsLiteral, IsPlain, Piece, arity, character, format_of, hex, literal, padded_hex,
  percent, render, render_all, signed, spelling, text, unsigned,
}

module _ (text_at : Word → List ℕ) (esp : ℕ → Word) (conv : ℕ → Memory) where
  goes_on :
      (s : List ℕ) (i : ℕ) {n m : ℕ} {c d : Console}
      → n ≡ m
      → c ≡ d
      → printf_from text_at esp conv plain s i n c ≡ printf_from text_at esp conv plain s i m d
  goes_on s i e f = ap₂ (λ n c. printf_from text_at esp conv plain s i n c) e f

  -- One piece of the format: its characters, its argument, and what it prints.
  printf_from-spelling :
      (p : Piece) (s : List ℕ) (i n : ℕ) (c : Console)
      → IsLiteral p
      → ((j : ℕ) → esp j < 2 ^ 32)
      → printf_from text_at esp conv plain (spelling p ++ s) i n c
        ≡ printf_from text_at esp conv plain s
            (i + arity p)
            (n + length (spelling p))
            (puts (render text_at esp i p) c)
  unfolding printf_from print_char convert puts
  printf_from-spelling (literal ch) s i n c h w =
      let q : ch == 37 ≡ false = ground arith in let z : i + 0 ≡ i = omega arith in rw (q, z) refl
  printf_from-spelling percent s i n c h w =
      let z : i + 0 ≡ i = omega arith in rw z (goes_on s i (omega arith) refl)
  printf_from-spelling hex s i n c h w =
      goes_on s (i + 1) (omega arith) (put_hex-plain (conv i) (esp i) c)
  printf_from-spelling padded_hex s i n c h w =
      goes_on s (i + 1) (omega arith) (put_hex_padded (conv i) (esp i) c (w i))
  printf_from-spelling unsigned s i n c h w =
      goes_on s (i + 1) (omega arith) (put_unsigned_lem (conv i) (esp i) c)
  printf_from-spelling signed s i n c h w =
      goes_on s (i + 1) (omega arith) (put_signed_lem (conv i) (esp i) c (w i))
  printf_from-spelling character s i n c h w = goes_on s (i + 1) (omega arith) refl
  printf_from-spelling text s i n c h w = goes_on s (i + 1) (omega arith) refl

  printf_from-format_of :
      (ps : List Piece) (i n : ℕ) (c : Console)
      → AllLiteral ps
      → ((j : ℕ) → esp j < 2 ^ 32)
      → printf_from text_at esp conv plain (format_of ps) i n c
        ≡ some (n + length (format_of ps), puts (render_all text_at esp i ps) c)
  unfolding printf_from puts
  printf_from-format_of [] i n c h w = ap (λ n. some (n, c)) (omega arith)
  printf_from-format_of (p ∷ ps) i n c h w =
      printf_from-spelling p (format_of ps) i n c h.0 w
      ∙ printf_from-format_of ps (i + arity p) (n + length (spelling p))
          (puts (render text_at esp i p) c) h.1 w
      ∙ ap₂ (λ n c. some (n, c)) (omega (arith, length-append (spelling p) (format_of ps)))
          (sym (puts-append (render text_at esp i p) (render_all text_at esp (i + arity p) ps) c))

  -- printf of a format that is made of plain characters and the conversions %%, %x, %#x, %u, %d, %c
  -- and %s prints what these stand for, each conversion at the next 32-bit argument, and returns
  -- the format's length.
  pub printf-format_of :
      (ps : List Piece) (c : Console)
      → AllLiteral ps
      → ((j : ℕ) → esp j < 2 ^ 32)
      → printf text_at esp conv (format_of ps) c
        ≡ some (length (format_of ps), puts (render_all text_at esp 0 ps) c)
  unfolding printf
  printf-format_of ps c h w =
      printf_from-format_of ps 0 0 c h w
      ∙ ap (λ n. some (n, puts (render_all text_at esp 0 ps) c)) (omega arith)

  -- A format without a percent sign is printed as it stands.
  plain-printf_from :
      (s : List ℕ) (i n : ℕ) (c : Console)
      → IsPlain s
      → printf_from text_at esp conv plain s i n c ≡ some (n + length s, puts s c)
  unfolding printf_from print_char puts
  plain-printf_from [] i n c h = ap (λ n. some (n, c)) (omega arith)
  plain-printf_from (ch ∷ s) i n c h =
      let q : ch == 37 ≡ false = ground arith in
      rw q (
        plain-printf_from s i (n + 1) (putc ch c) h.1
        ∙ ap (λ n. some (n, puts s (putc ch c))) (omega arith))

  pub plain-printf :
      (s : List ℕ) (c : Console)
      → IsPlain s
      → printf text_at esp conv s c ≡ some (length s, puts s c)
  unfolding printf
  plain-printf s c h = plain-printf_from s 0 0 c h ∙ ap (λ n. some (n, puts s c)) (omega arith)

  dangling-printf_from :
      (s : List ℕ) (i n : ℕ) (c : Console)
      → IsPlain s
      → printf_from text_at esp conv plain (s ++ (37 ∷ [])) i n c ≡ none
  unfolding printf_from print_char
  dangling-printf_from [] i n c h = refl
  dangling-printf_from (ch ∷ s) i n c h =
      let q : ch == 37 ≡ false = ground arith in
      rw (printf_from, q) (dangling-printf_from s i (n + 1) (putc ch c) h.1)

  -- A format that ends in a percent sign is read past its NUL.
  pub printf_dangling :
      (s : List ℕ) (c : Console) → IsPlain s → printf text_at esp conv (s ++ (37 ∷ [])) c ≡ none
  unfolding printf
  printf_dangling s c h = dangling-printf_from s 0 0 c h
