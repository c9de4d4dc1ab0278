-- ===== src/Clib/Texts.antt =====
-- Texts of student-distrib/lib.c as lists: what stands in memory before a NUL.
use fuzzy_os.Base.{
  List, Memory, [], arith, get_or, length, refl, slice, suc, zero, ℕ, ◌++◌, ◌+◌, ◌<◌, ◌∷◌, ◌≡◌, ◌≢◌,
}
use fuzzy_os.Clib.Strings.{strlen, text_of}

-- Characters that are not NUL.
abbrev pub IsText : List ℕ → Type 0
IsText [] = Unit
IsText (c ∷ s) = (c ≢ 0) × IsText s

pub text_of-IsText : (s : List ℕ) → IsText s → text_of s ≡ s
unfolding text_of
text_of-IsText [] h = refl
text_of-IsText (c ∷ s) h = ground (arith, text_of-IsText s h.1)

pub get_or-IsText : (s : List ℕ) (i : ℕ) → IsText s → i < length s → get_or s i 0 ≢ 0
get_or-IsText [] i h l = absurd (omega arith)
get_or-IsText (c ∷ s) zero h l = h.0
get_or-IsText (c ∷ s) (suc i) h l = get_or-IsText s i h.1 (omega arith)

pub append-IsText : (s t : List ℕ) → IsText s → IsText t → IsText (s ++ t)
append-IsText [] t h k = k
append-IsText (c ∷ s) t h k = (h.0, append-IsText s t h.1 k)

-- The memory at `a` holds a text and its NUL.
pub record Holds (m : Memory) (a : ℕ) (s : List ℕ) : Type 0 where
  pub chars : (i : ℕ) → i < length s → m (a + i) ≡ get_or s i 0
  pub nul : m (a + length s) ≡ 0

pub Holds-tail : (m : Memory) (a c : ℕ) (s : List ℕ) → Holds m a (c ∷ s) → Holds m (a + 1) s
Holds-tail m a c s h = record {
  chars = λ i l. ground (arith, h.chars (suc i));
  nul = ground (arith, h.nul);
}

pub text_of-slice :
    (m : Memory) (a k : ℕ) (s : List ℕ)
    → IsText s
    → Holds m a s
    → length s < k
    → text_of (slice m a k) ≡ s
unfolding text_of
text_of-slice m a zero s t h l = absurd (omega arith)
text_of-slice m a (suc k) [] t h l = ground (arith, h.nul)
text_of-slice m a (suc k) (c ∷ s) t h l =
    ground
      (arith, h.chars 0, t, text_of-slice m (a + 1) k s t.1 (Holds-tail m a c s h) (omega arith))

-- Where the first NUL stands.
pub strlen-slice_at :
    (m : Memory) (a n k : ℕ)
    → ((i : ℕ) → i < n → m (a + i) ≢ 0)
    → m (a + n) ≡ 0
    → n < k
    → strlen (slice m a k) ≡ n
unfolding strlen
strlen-slice_at m a n zero h z l = absurd (omega arith)
strlen-slice_at m a zero (suc k) h z l = ground (arith, z)
strlen-slice_at m a (suc n) (suc k) h z l = ground (
  arith,
  h 0,
  strlen-slice_at m (a + 1) n k (λ i l. ground (arith, h (suc i))) (ground (arith, z))
      (omega arith),
)

pub strlen-slice :
    (m : Memory) (a k : ℕ) (s : List ℕ)
    → IsText s
    → Holds m a s
    → length s < k
    → strlen (slice m a k) ≡ length s
strlen-slice m a k s t h l =
    strlen-slice_at m a (length s) k (λ i b. ground (arith, h.chars i, get_or-IsText s i t)) (h.nul)
      l
