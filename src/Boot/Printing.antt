-- ===== src/Boot/Printing.antt =====
-- What the messages of entry in student-distrib/kernel.c leave alone: each call of printf returns,
-- and changes the screen only.
use fuzzy_os.Base.{
  Bool, List, Option, [], arith, false, if◌then◌else◌, not, refl, some, true, ◌&&◌, ◌==◌, ◌>>=◌,
  ◌∙◌, ◌∷◌, ◌≡◌,
}
use fuzzy_os.Boot.State.{Machine}
use fuzzy_os.Console.Input.{OnlyPrints, OnlyPrints-refl, OnlyPrints-trans}
use fuzzy_os.Console.Rendering.{
  AllLiteral, Piece, character, hex, literal, padded_hex, percent, signed, text, unsigned,
}

-- The same kernel and processor, but for the screen.
pub record Printed (m m' : Machine) : Type 0 where
  pub pid : m'.kernel.pid ≡ m.kernel.pid
  pub process_num : m'.kernel.process_num ≡ m.kernel.process_num
  pub flag : m'.kernel.exception_flag ≡ m.kernel.exception_flag
  pub interrupts : m'.interrupts_on ≡ m.interrupts_on
  pub con : OnlyPrints m.kernel.keys.con m'.kernel.keys.con

pub Printed-refl : (m : Machine) → Printed m m
Printed-refl m = record {
  pid = refl;
  process_num = refl;
  flag = refl;
  interrupts = refl;
  con = OnlyPrints-refl m.kernel.keys.con;
}

pub Printed-trans : (l m n : Machine) → Printed l m → Printed m n → Printed l n
Printed-trans l m n p q = record {
  pid = q.pid ∙ p.pid;
  process_num = q.process_num ∙ p.process_num;
  flag = q.flag ∙ p.flag;
  interrupts = q.interrupts ∙ p.interrupts;
  con = OnlyPrints-trans l.kernel.keys.con m.kernel.keys.con n.kernel.keys.con p.con q.con;
}

-- A computation that returns, and prints only.
abbrev pub Yields : Machine → Option Machine → Type 0
Yields m o = (m' : Machine) × (o ≡ some m') × Printed m m'

pub Yields-some : (m : Machine) → Yields m (some m)
Yields-some m = (m, refl, Printed-refl m)

pub Yields-bind :
    (m : Machine) (o : Option Machine) (f : Machine → Option Machine)
    → Yields m o
    → ((m' : Machine) → Yields m' (f m'))
    → Yields m (o >>= f)
Yields-bind m o f (m', e, p) h = let (n, e', q) = h m' in (n, rw e e', Printed-trans m m' n p q)

pub Yields-if :
    (m : Machine) (t : Bool) (x y : Option Machine)
    → Yields m x
    → Yields m y
    → Yields m (if t then x else y)
Yields-if m true x y p q = p
Yields-if m false x y p q = q

-- No literal piece is a percent sign.
abbrev pub all_literal : List Piece → Bool
all_literal [] = true
all_literal (literal c ∷ ps) = not (c == 37) && (not (c == 0) && all_literal ps)
all_literal (percent ∷ ps) = all_literal ps
all_literal (hex ∷ ps) = all_literal ps
all_literal (padded_hex ∷ ps) = all_literal ps
all_literal (unsigned ∷ ps) = all_literal ps
all_literal (signed ∷ ps) = all_literal ps
all_literal (character ∷ ps) = all_literal ps
all_literal (text ∷ ps) = all_literal ps

pub all_literal-AllLiteral : (ps : List Piece) → all_literal ps ≡ true → AllLiteral ps
all_literal-AllLiteral [] h = tt
all_literal-AllLiteral (literal c ∷ ps) h =
    ((ground arith, ground arith), all_literal-AllLiteral ps (ground arith))
all_literal-AllLiteral (percent ∷ ps) h = (tt, all_literal-AllLiteral ps h)
all_literal-AllLiteral (hex ∷ ps) h = (tt, all_literal-AllLiteral ps h)
all_literal-AllLiteral (padded_hex ∷ ps) h = (tt, all_literal-AllLiteral ps h)
all_literal-AllLiteral (unsigned ∷ ps) h = (tt, all_literal-AllLiteral ps h)
all_literal-AllLiteral (signed ∷ ps) h = (tt, all_literal-AllLiteral ps h)
all_literal-AllLiteral (character ∷ ps) h = (tt, all_literal-AllLiteral ps h)
all_literal-AllLiteral (text ∷ ps) h = (tt, all_literal-AllLiteral ps h)
