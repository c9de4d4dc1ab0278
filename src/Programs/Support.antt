-- ===== src/Programs/Support.antt =====
-- syscalls/ece391support.c. A text is the list of the bytes from its pointer on, with zeros behind
-- the list's end.
use fuzzy_os.Base.{
  List, Memory, Option, Word, [], bytes, get_or, if◌then◌else◌, leb, ltb, slice, some, sub32, suc,
  update, zero, ℕ, ◌%◌, ◌+◌, ◌-◌, ◌/◌, ◌==◌, ◌>>=◌, ◌∷◌,
}
use fuzzy_os.Programs.Calls.{Calls}

-- ece391_strlen
unfoldable pub ece391_strlen : List ℕ → ℕ
ece391_strlen [] = 0
ece391_strlen (c ∷ s) = if c == 0 then 0 else suc (ece391_strlen s)

-- ece391_strcpy, from index `i` of the destination
unfoldable pub ece391_strcpy : Memory → ℕ → List ℕ → Memory
ece391_strcpy dst i [] = update dst i 0
ece391_strcpy dst i (c ∷ src) =
    let rest = ece391_strcpy (update dst i c) (i + 1) src in if c == 0 then update dst i c else rest

-- ece391_strcmp; the bytes are unsigned.
unfoldable pub ece391_strcmp : List ℕ → List ℕ → Word
ece391_strcmp [] [] = 0
ece391_strcmp [] (d ∷ t) = sub32 0 d
ece391_strcmp (c ∷ s) [] = sub32 c 0
ece391_strcmp (c ∷ s) (d ∷ t) =
    let rest = ece391_strcmp s t in if c == d then (if c == 0 then 0 else rest) else sub32 c d

-- ece391_strncmp
unfoldable pub ece391_strncmp : List ℕ → List ℕ → ℕ → Word
ece391_strncmp s1 s2 zero = 0
ece391_strncmp [] [] (suc n) = 0
ece391_strncmp [] (d ∷ t) (suc n) = sub32 0 d
ece391_strncmp (c ∷ s) [] (suc n) = sub32 c 0
ece391_strncmp (c ∷ s) (d ∷ t) (suc n) =
    let rest = ece391_strncmp s t n in if c == d then (if c == 0 then 0 else rest) else sub32 c d

-- The loop of ece391_strrev, with fuel.
unfoldable pub ece391_strrev_loop : ℕ → Memory → ℕ → ℕ → Memory
ece391_strrev_loop zero s beg end = s
ece391_strrev_loop (suc f) s beg end =
    let rest =
      ece391_strrev_loop f (update (update s end (s beg)) beg (s end)) (beg + 1) (end - 1) in
    if ltb beg end then rest else s

-- ece391_strrev of a text with `n` characters
unfoldable pub ece391_strrev : Memory → ℕ → Memory
ece391_strrev s n = if leb n 1 then s else ece391_strrev_loop n s 0 (n - 1)

-- `lookup`, the digits of ece391_itoa
abbrev pub lookup : List ℕ
lookup =
    48 ∷ 49 ∷ 50 ∷ 51 ∷ 52 ∷ 53 ∷ 54 ∷ 55 ∷ 56 ∷ 57 ∷ 65 ∷ 66 ∷ 67 ∷ 68 ∷ 69 ∷ 70 ∷ 71 ∷ 72 ∷ 73
    ∷ 74 ∷ 75 ∷ 76 ∷ 77 ∷ 78 ∷ 79 ∷ 80 ∷ 81 ∷ 82 ∷ 83 ∷ 84 ∷ 85 ∷ 86 ∷ 87 ∷ 88 ∷ 89 ∷ 90 ∷ []

-- The digit loop of ece391_itoa, with fuel, for a radix of 36 or less.
unfoldable pub ece391_itoa_loop : ℕ → ℕ → ℕ → Memory → ℕ → Memory × ℕ
ece391_itoa_loop zero newval radix buf p = (buf, p)
ece391_itoa_loop (suc f) newval radix buf p =
    let rest =
      ece391_itoa_loop f (newval / radix) radix (update buf p (get_or lookup (newval % radix) 0))
        (p + 1) in
    if newval == 0 then (buf, p) else rest

-- ece391_itoa
unfoldable pub ece391_itoa : ℕ → Memory → ℕ → Memory
ece391_itoa value buf radix =
    if value == 0
    then update (update buf 0 48) 1 0
    else (let (written, end) = ece391_itoa_loop 32 value radix buf 0 in
        let ended = update written end 0 in
        ece391_strrev ended (ece391_strlen (slice ended 0 (end + 1))))

module _ {S : Type 0} (calls : Calls S) where
  -- ece391_fdputs
  unfoldable pub fdputs : Word → List ℕ → S → Option S
  fdputs fd s st = do r ← calls.write_call fd (bytes s) (ece391_strlen s) st; some (r.1)
