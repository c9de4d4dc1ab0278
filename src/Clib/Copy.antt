-- ===== src/Clib/Copy.antt =====
-- What strcpy and strncpy of student-distrib/lib.c leave in the destination.
use fuzzy_os.Base.{
  Bool, List, Memory, [], arith, false, get_or, if◌then◌else◌, inr, ltb, refl, slice, suc, update,
  zero, ℕ, ◌+◌, ◌<◌, ◌==◌, ◌||◌, ◌∷◌, ◌≡◌, ◌≢◌, ◌≤◌, ◌⊎◌,
}
use fuzzy_os.Clib.Strings.{pad_from, strcpy, strcpy_from, strlen, strncpy, strncpy_from}

-- There is a NUL among the bytes from `i` to `i + d`.
abbrev pub has_nul : Memory → ℕ → ℕ → Bool
has_nul s i zero = s i == 0
has_nul s i (suc d) = s i == 0 || has_nul s (i + 1) d

pad_from-outside :
    (dest : Memory) (k i x : ℕ) → (x < i) ⊎ (i + k ≤ x) → pad_from dest k i x ≡ dest x
unfolding pad_from
pad_from-outside dest zero i x h = refl
pad_from-outside dest (suc k) i x h = ground (arith, pad_from-outside (update dest i 0) k (i + 1) x)

pad_from-inside : (dest : Memory) (k i x : ℕ) → i ≤ x → x < i + k → pad_from dest k i x ≡ 0
unfolding pad_from
pad_from-inside dest zero i x h l = absurd (omega arith)
pad_from-inside dest (suc k) i x h l = ground (
  arith,
  pad_from-inside (update dest i 0) k (i + 1) x,
  pad_from-outside (update dest i 0) k (i + 1) x,
)

strncpy_from-outside :
    (dest src : Memory) (k i x : ℕ) → (x < i) ⊎ (i + k ≤ x) → strncpy_from dest src k i x ≡ dest x
unfolding strncpy_from
strncpy_from-outside dest src zero i x h = refl
strncpy_from-outside dest src (suc k) i x h = ground (
  arith,
  pad_from-outside dest (suc k) i x,
  strncpy_from-outside (update dest i (src i)) src k (i + 1) x,
)

strncpy_from-inside :
    (dest src : Memory) (k i d : ℕ)
    → d < k
    → strncpy_from dest src k i (i + d) ≡ (if has_nul src i d then 0 else src (i + d))
unfolding strncpy_from
strncpy_from-inside dest src zero i d h = absurd (omega arith)
strncpy_from-inside dest src (suc k) i zero h = ground (
  arith,
  pad_from-inside dest (suc k) i (i + 0),
  strncpy_from-outside (update dest i (src i)) src k (i + 1) (i + 0),
)
strncpy_from-inside dest src (suc k) i (suc d) h = ground (
  arith,
  pad_from-inside dest (suc k) i (i + suc d),
  strncpy_from-inside (update dest i (src i)) src k (i + 1) d,
)

-- strncpy writes exactly `n` bytes: the source up to its NUL and zeros from there on. It leaves
-- every byte of the destination from `n` on as it was.
pub strncpy_lem :
    (dest src : Memory) (n x : ℕ)
    → (x < n → strncpy dest src n x ≡ (if has_nul src 0 x then 0 else src x))
      × (n ≤ x → strncpy dest src n x ≡ dest x)
unfolding strncpy
strncpy_lem dest src n x = (
  λ h. ground (arith, strncpy_from-inside dest src n 0 x),
  λ h. strncpy_from-outside dest src n 0 x (inr (omega arith)),
)

strcpy_from-below :
    (src : List ℕ) (dest : Memory) (i x : ℕ) → x < i → strcpy_from dest src i x ≡ dest x
unfolding strcpy_from
strcpy_from-below [] dest i x h = ground arith
strcpy_from-below (c ∷ src) dest i x h =
    ground (arith, strcpy_from-below src (update dest i c) (i + 1) x)

-- What strcpy leaves at offset `d` from where it starts.
abbrev pub copied : List ℕ → Memory → ℕ → ℕ → ℕ
copied src dest i d =
    if ltb d (strlen src) then get_or src d 0 else if d == strlen src then 0 else dest (i + d)

strcpy_from_lem :
    (src : List ℕ) (dest : Memory) (i d : ℕ) → strcpy_from dest src i (i + d) ≡ copied src dest i d
unfolding strcpy_from strlen
strcpy_from_lem [] dest i d = ground arith
strcpy_from_lem (c ∷ src) dest i zero =
    ground (arith, strcpy_from-below src (update dest i c) (i + 1) (i + 0))
strcpy_from_lem (c ∷ src) dest i (suc d) =
    ground (arith, strcpy_from_lem src (update dest i c) (i + 1) d)

-- strcpy writes the text and its NUL, and nothing behind them.
pub strcpy_lem : (dest : Memory) (src : List ℕ) (x : ℕ) → strcpy dest src x ≡ copied src dest 0 x
unfolding strcpy
strcpy_lem dest src x = ground (arith, strcpy_from_lem src dest 0 x)

pub strlen_ne_zero : (s : List ℕ) (x : ℕ) → x < strlen s → get_or s x 0 ≢ 0
unfolding strlen
strlen_ne_zero [] x h = absurd (omega arith)
strlen_ne_zero (c ∷ s) zero h = ground arith
strlen_ne_zero (c ∷ s) (suc x) h = ground (arith, strlen_ne_zero s x)

pub get_or-slice : (m : Memory) (a k x : ℕ) → x < k → get_or (slice m a k) x 0 ≡ m (a + x)
get_or-slice m a zero x h = absurd (omega arith)
get_or-slice m a (suc k) zero h = ground arith
get_or-slice m a (suc k) (suc x) h = ground (arith, get_or-slice m (a + 1) k x)

le-strlen-slice :
    (m : Memory) (k a n : ℕ) → n ≤ k → ((j : ℕ) → j < n → m (a + j) ≢ 0) → n ≤ strlen (slice m a k)
unfolding strlen
le-strlen-slice m k a zero h f = omega arith
le-strlen-slice m zero a (suc n) h f = absurd (omega arith)
le-strlen-slice m (suc k) a (suc n) h f =
    ground
      (arith, f 0, le-strlen-slice m k (a + 1) n (omega arith) (λ j l. ground (arith, f (j + 1))))

-- strcpy out of a buffer copies its bytes up to the first NUL.
pub strcpy-slice :
    (dest m : Memory) (k n x : ℕ)
    → n ≤ k
    → ((j : ℕ) → j < n → m j ≢ 0)
    → x < n
    → strcpy dest (slice m 0 k) x ≡ m x
strcpy-slice dest m k n x h f l = ground (
  arith,
  strcpy_lem dest (slice m 0 k) x,
  le-strlen-slice m k 0 n h (λ j lt. ground (arith, f j)),
  get_or-slice m 0 k x,
)

pub has_nul-false :
    (m : Memory) (i d : ℕ) → ((j : ℕ) → j ≤ d → m (i + j) ≢ 0) → has_nul m i d ≡ false
has_nul-false m i zero f = ground (arith, f 0)
has_nul-false m i (suc d) f =
    ground (arith, f 0, has_nul-false m (i + 1) d (λ j l. ground (arith, f (j + 1))))
