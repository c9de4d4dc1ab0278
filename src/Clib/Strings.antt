-- ===== src/Clib/Strings.antt =====
-- The string routines of student-distrib/lib.c. A text that is walked to its NUL is the list of
-- the bytes from its pointer on, with zeros behind the list's end; a buffer that is written, or a
-- pair that is compared up to a count, is memory from its pointer on.
use fuzzy_os.Base.{
  List, Memory, Word, [], if◌then◌else◌, ltb, not, sign_extend8, slice, sub32, suc, update, zero, ℕ,
  ◌%◌, ◌+◌, ◌-◌, ◌/◌, ◌==◌, ◌||◌, ◌∷◌,
}

-- strlen: `while (s[len] != '\0') len++`
unfoldable pub strlen : List ℕ → ℕ
strlen [] = 0
strlen (c ∷ s) = if c == 0 then 0 else suc (strlen s)

-- The characters before the NUL, which is what a text is taken for.
unfoldable pub text_of : List ℕ → List ℕ
text_of [] = []
text_of (c ∷ s) = let rest = text_of s in if c == 0 then [] else c ∷ rest

-- strncmp, from index `i` with `k` rounds left; `int8_t` values are subtracted as `int`.
unfoldable pub strncmp_from : Memory → Memory → ℕ → ℕ → Word
strncmp_from s1 s2 zero i = 0
strncmp_from s1 s2 (suc k) i =
    let rest = strncmp_from s1 s2 k (i + 1) in
    if not (s1 i == s2 i) || s1 i == 0
    then sub32 (sign_extend8 (s1 i)) (sign_extend8 (s2 i))
    else rest

unfoldable pub strncmp : Memory → Memory → ℕ → Word
unfolding strncmp_from
strncmp s1 s2 n = strncmp_from s1 s2 n 0

-- strcpy, from index `i` of the destination; the list is the source from index `i` on.
unfoldable pub strcpy_from : Memory → List ℕ → ℕ → Memory
strcpy_from dest [] i = update dest i 0
strcpy_from dest (c ∷ src) i =
    let rest = strcpy_from (update dest i c) src (i + 1) in if c == 0 then update dest i 0 else rest

unfoldable pub strcpy : Memory → List ℕ → Memory
unfolding strcpy_from
strcpy dest src = strcpy_from dest src 0

-- The second loop of strncpy: `while (i < n) { dest[i] = '\0'; i++; }`, with `k = n - i`.
unfoldable pub pad_from : Memory → ℕ → ℕ → Memory
pad_from dest zero i = dest
pad_from dest (suc k) i = pad_from (update dest i 0) k (i + 1)

-- The first loop of strncpy, which goes on in the second when it meets the NUL.
unfoldable pub strncpy_from : Memory → Memory → ℕ → ℕ → Memory
unfolding pad_from
strncpy_from dest src zero i = dest
strncpy_from dest src (suc k) i =
    let rest = strncpy_from (update dest i (src i)) src k (i + 1) in
    if src i == 0 then pad_from dest (suc k) i else rest

unfoldable pub strncpy : Memory → Memory → ℕ → Memory
unfolding strncpy_from
strncpy dest src n = strncpy_from dest src n 0

-- The loop of strrev, `while (beg < end)`, with fuel.
unfoldable pub strrev_loop : ℕ → Memory → ℕ → ℕ → Memory
strrev_loop zero s beg end = s
strrev_loop (suc f) s beg end =
    let rest = strrev_loop f (update (update s end (s beg)) beg (s end)) (beg + 1) (end - 1) in
    if ltb beg end then rest else s

-- strrev. `end = strlen(s) - 1` is -1 for an empty text, and 0 here: the loop does nothing at both.
unfoldable pub strrev : Memory → ℕ → Memory
unfolding strrev_loop
strrev s n = strrev_loop n s 0 (n - 1)

-- `lookup[i]` of itoa, "0123456789ABCDEFGHIJKLMNOPQRSTUVWXYZ"
-- It is used for an index below 36, behind which the table ends.
abbrev pub digit_char : ℕ → ℕ
digit_char i = if ltb i 10 then i + 48 else i + 55

-- The digit loop of itoa, `while (newval > 0)`, with fuel: the buffer from `p` on, and the end.
unfoldable pub itoa_loop : ℕ → ℕ → ℕ → Memory → ℕ → Memory × ℕ
itoa_loop zero newval radix buf p = (buf, p)
itoa_loop (suc f) newval radix buf p =
    let rest =
      itoa_loop f (newval / radix) radix (update buf p (digit_char (newval % radix))) (p + 1) in
    if newval == 0 then (buf, p) else rest

-- itoa: a value below 2 ^ 32 has at most 32 digits in a radix of two or more.
unfoldable pub itoa : ℕ → Memory → ℕ → Memory
itoa value buf radix =
    if value == 0
    then update (update buf 0 48) 1 0
    else (let (written, end) = itoa_loop 32 value radix buf 0 in
        let ended = update written end 0 in strrev ended (strlen (slice ended 0 (end + 1))))
