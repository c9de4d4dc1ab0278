-- ===== src/FileSystem/Lookup.antt =====
-- The search by name of student-distrib/filesys.c: which entry read_dentry_by_name finds.
use mathlib.Core.Path.{subst}
use native.Mathlib.Decide.{dec_lt}
use fuzzy_os.Base.{
  ==_iff, Bool, Bool-cases, List, Memory, Option, Option-cases, arith, bytes, false, get_or, inl,
  inr, minus_one, none, not, refl, some, suc, true, zero, ℕ, ◌+◌, ◌<◌, ◌==◌, ◌||◌, ◌∙◌, ◌≡◌, ◌≢◌,
  ◌≤◌, ◌⊎◌,
}
use fuzzy_os.Clib.Compare.{AgreeFrom, IsBytes, strncmp-zero_iff}
use fuzzy_os.Clib.Copy.{has_nul, has_nul-false, strcpy-slice, strlen_ne_zero, strncpy_lem}
use fuzzy_os.Clib.Strings.{strlen, strncmp, strncmp_from}
use fuzzy_os.FileSystem.{
  Dentry, dentry_at, dentry_name, fill_dentry, find_dentry, find_name, max_file_name_len,
  name_buffer, read_dentry_by_name,
}

-- Entry `i` of the directory has this name, up to 32 bytes.
pub record HasName (img : Memory) (fname : List ℕ) (i : ℕ) : Type 0 where
  pub agree : AgreeFrom (dentry_name img i) (bytes fname) max_file_name_len 0

has_nul-snoc : (s : Memory) (i d : ℕ) → has_nul s i (suc d) ≡ (has_nul s i d || s (i + suc d) == 0)
has_nul-snoc s i zero = ground arith
has_nul-snoc s i (suc d) = ground (arith, has_nul-snoc s (i + 1) d)

-- No NUL stands before index `i`.
abbrev nul_free : Memory → ℕ → Bool
nul_free s zero = true
nul_free s (suc i) = not (has_nul s 0 i)

nul_free-suc : (s : Memory) (i : ℕ) → nul_free s i ≡ true → s i ≢ 0 → nul_free s (suc i) ≡ true
nul_free-suc s zero h n = ground arith
nul_free-suc s (suc i) h n = ground (arith, has_nul-snoc s 0 i)

has_nul-nul_free : (s : Memory) (i : ℕ) → nul_free s i ≡ true → has_nul s 0 i ≡ (s i == 0)
has_nul-nul_free s zero h = refl
has_nul-nul_free s (suc i) h = ground (arith, has_nul-snoc s 0 i)

-- The buffer holds the name as far as a comparison looks at it.
name_buffer-below :
    (stack : Memory) (fname : List ℕ) (i : ℕ)
    → i < 32
    → nul_free (bytes fname) i ≡ true
    → name_buffer stack fname i ≡ get_or fname i 0
unfolding name_buffer
name_buffer-below stack fname i h n =
    ground (arith, (strncpy_lem stack (bytes fname) 32 i).0, has_nul-nul_free (bytes fname) i)

strncmp_from-name_buffer :
    (s stack : Memory) (fname : List ℕ) (k i : ℕ)
    → i + k ≤ 32
    → nul_free (bytes fname) i ≡ true
    → strncmp_from s (name_buffer stack fname) k i ≡ strncmp_from s (bytes fname) k i
unfolding strncmp_from
strncmp_from-name_buffer s stack fname zero i h n = refl
strncmp_from-name_buffer s stack fname (suc k) i h n = ground (
  arith,
  name_buffer-below stack fname i,
  nul_free-suc (bytes fname) i,
  strncmp_from-name_buffer s stack fname k (i + 1),
)

strncmp-name_buffer :
    (s stack : Memory) (fname : List ℕ)
    → strncmp s (name_buffer stack fname) 32 ≡ strncmp s (bytes fname) 32
unfolding strncmp
strncmp-name_buffer s stack fname = strncmp_from-name_buffer s stack fname 32 0 (omega arith) refl

nul_free-strlen : (fname : List ℕ) (i : ℕ) → i ≤ strlen fname → nul_free (bytes fname) i ≡ true
nul_free-strlen fname zero h = refl
nul_free-strlen fname (suc i) h =
    ground (arith, has_nul-false (bytes fname) 0 i (λ j l. ground (arith, strlen_ne_zero fname j)))

name_buffer-name :
    (stack : Memory) (fname : List ℕ) (x : ℕ)
    → strlen fname ≤ 32
    → x < strlen fname
    → name_buffer stack fname x ≡ get_or fname x 0
name_buffer-name stack fname x h l =
    name_buffer-below stack fname x (omega arith) (nul_free-strlen fname x (omega arith))

module _ (img : Memory) (stack : Memory) (fname : List ℕ) (image : IsBytes img)
    (text : IsBytes (bytes fname)) where
  -- The test of the loop is the comparison of names.
  matches_of_zero :
      (i : ℕ) → strncmp (dentry_name img i) (name_buffer stack fname) 32 ≡ 0 → HasName img fname i
  matches_of_zero i h = record {
    agree =
        (strncmp-zero_iff (dentry_name img i) (bytes fname) 32 (λ j. image (dentry_at i + j))
            text).0
          (rw strncmp-name_buffer at h);
  }

  zero_of_matches :
      (i : ℕ) → HasName img fname i → strncmp (dentry_name img i) (name_buffer stack fname) 32 ≡ 0
  zero_of_matches i h = rw strncmp-name_buffer (
      (strncmp-zero_iff (dentry_name img i) (bytes fname) 32 (λ j. image (dentry_at i + j)) text).1
        h.agree)

  abbrev Found : ℕ → ℕ → Option ℕ → Type 0
  Found k i none = (j : ℕ) → i ≤ j → j < i + k → ¬ HasName img fname j
  Found k i (some j) =
      (i ≤ j)
      × (j < i + k)
      × HasName img fname j
      × ((l : ℕ) → i ≤ l → l < j → ¬ HasName img fname l)

  Found-cons :
      (k i : ℕ) (o : Option ℕ) → ¬ HasName img fname i → Found k (i + 1) o → Found (suc k) i o
  Found-cons k i none no_match f = λ j lo hi. elim (dec_lt i j) [
    | yes p ↦ f j (omega arith) (omega arith)
    | no p ↦ (let e : i ≡ j = omega arith in subst (λ x. ¬ HasName img fname x) e no_match)
  ]
  Found-cons k i (some j) no_match f = (
    omega arith,
    omega arith,
    f.2,
    λ l lo hi. elim (dec_lt i l) [
      | yes p ↦ f.3 l (omega arith) hi
      | no p ↦ (let e : i ≡ l = omega arith in subst (λ x. ¬ HasName img fname x) e no_match)
    ],
  )

  find_name-Found : (k i : ℕ) → Found k i (find_name img (name_buffer stack fname) k i)
  unfolding find_name
  find_name-Found zero i = λ j lo hi. absurd (omega arith)
  find_name-Found (suc k) i =
      elim (Bool-cases (strncmp (dentry_name img i) (name_buffer stack fname) 32 == 0)) [
        | inl e ↦ rw e (
          omega arith,
          omega arith,
          matches_of_zero i ((==_iff _ _).0 e),
          λ l lo hi. absurd (omega arith),
        )
        | inr e ↦ rw e (
            Found-cons k i (find_name img (name_buffer stack fname) k (i + 1))
              (λ h. ne_of_test _ e (zero_of_matches i h)) (find_name-Found k (i + 1)))
      ]
    where
      ne_of_test : (a : ℕ) → (a == 0) ≡ false → a ≢ 0
      ne_of_test a t = ground arith

  -- What a hit leaves in `*dentry`: the name that was looked for and the entry's two bytes.
  abbrev pub Fills : ℕ → Option Dentry → Type 0
  Fills i none = ⊥
  Fills i (some d) =
      (d.file_type ≡ img (dentry_at i + 32))
      × (d.inode_num ≡ img (dentry_at i + 36))
      × ((x : ℕ) → x < strlen fname → d.file_name x ≡ get_or fname x 0)

  find_dentry-Found : (o : Option ℕ) → find_dentry img (name_buffer stack fname) ≡ o → Found 64 0 o
  unfolding find_dentry
  find_dentry-Found o e = subst (Found 64 0) e (find_name-Found 64 0)

  name_written :
      (d : Dentry) (i : ℕ)
      → strlen fname ≤ 32
      → Fills i (some (fill_dentry img (name_buffer stack fname) i d))
  unfolding fill_dentry
  name_written d i h = (
    refl,
    refl,
    λ x l.
        strcpy-slice d.file_name (name_buffer stack fname) 34 (strlen fname) x (omega arith)
          (λ j lt. rw (name_buffer-name stack fname j h lt) (strlen_ne_zero fname j lt)) l
        ∙ name_buffer-name stack fname x h l,
  )

  -- A name of one to 32 bytes is looked up among the first 64 entries: either none of them has
  -- the name, and the call returns -1 and leaves `*dentry` alone; or it returns 0 with the name,
  -- the type byte and the inode byte of the first entry that has it.
  pub read_dentry_by_name_lem :
      (d : Dentry)
      → 0 < strlen fname
      → strlen fname ≤ 32
      → (((j : ℕ) → j < 64 → ¬ HasName img fname j)
          × (read_dentry_by_name img stack (some fname) (some d) ≡ (minus_one, some d)))
        ⊎ ((i : ℕ) × (i < 64)
            × HasName img fname i
            × ((l : ℕ) → l < i → ¬ HasName img fname l)
            × ((read_dentry_by_name img stack (some fname) (some d)).0 ≡ 0)
            × Fills i (read_dentry_by_name img stack (some fname) (some d)).1)
  unfolding read_dentry_by_name
  read_dentry_by_name_lem d pos short =
      elim (Option-cases (find_dentry img (name_buffer stack fname))) [
        | inl e ↦
            (let f = find_dentry-Found none e in
              inl (λ j h. f j (omega arith) (omega arith), ground arith))
        | inr (i, e) ↦
            (let f = find_dentry-Found (some i) e in
              inr (
                i,
                omega arith,
                f.2,
                λ l h. f.3 l (omega arith) h,
                ground arith,
                ground (arith, name_written d i),
              ))
      ]
