-- ===== src/Programs/Cat/Streams.antt =====
-- The loop of syscalls/ece391cat.c over any system calls that give a file part by part.
use mathlib.Core.Path.{subst}
use fuzzy_os.Base.{
  List, Memory, Word, [], ap, arith, drop, false, get_or, length, minus_one, refl, slice, some, suc,
  zero, ℕ, ◌++◌, ◌+◌, ◌-◌, ◌<◌, ◌==◌, ◌∷◌, ◌≡◌, ◌≢◌, ◌≤◌,
}
use fuzzy_os.Programs.Calls.{Calls}
use fuzzy_os.Programs.Cat.{cat_loop}

-- What the loop needs of the calls: a descriptor `fd` with the bytes that are left to read, and
-- descriptor 1 that shows what is written. Each part that is read is not empty while bytes are left.
pub record IsStream {S : Type 0} (calls : Calls S) (fd : Word) (Left : List ℕ → S → Type 0)
    (Shown : List ℕ → S → S → Type 0) : Type 0 where
  pub at_end :
      (buf : Memory) (s : S)
      → Left [] s
      → (buf' : Memory) × (s' : S) × (calls.read_call fd buf 1024 s ≡ some (0, buf', s'))
        × Shown [] s s'
  pub part :
      (t : List ℕ) (buf : Memory) (s : S)
      → Left t s
      → 0 < length t
      → (n : ℕ) × (buf' : Memory) × (s' : S) × (calls.read_call fd buf 1024 s ≡ some (n, buf', s'))
        × (0 < n)
        × (n ≤ length t)
        × (n ≤ 1024)
        × ((i : ℕ) → i < n → buf' i ≡ get_or t i 0)
        × Left (drop n t) s'
        × Shown [] s s'
  pub shows :
      (t : List ℕ) (buf : Memory) (n : ℕ) (s : S)
      → Left t s
      → n ≤ 1024
      → (r : Word) × (s' : S) × (calls.write_call 1 buf n s ≡ some (r, s'))
        × (r ≢ minus_one)
        × Left t s'
        × Shown (slice buf 0 n) s s'
  pub joins : (a b : List ℕ) (s t u : S) → Shown a s t → Shown b t u → Shown (a ++ b) s u

slice-take :
    (t : List ℕ) (m : Memory) (n a : ℕ)
    → n ≤ length t
    → ((i : ℕ) → i < n → m (a + i) ≡ get_or t i 0)
    → slice m a n ++ drop n t ≡ t
slice-take t m zero a l h = refl
slice-take [] m (suc n) a l h = absurd (omega arith)
slice-take (c ∷ t) m (suc n) a l h =
    let e : m a ≡ c = ground (arith, h 0) in
    rw e
      (ap (λ s. c ∷ s) (slice-take t m n (a + 1) (omega arith) (λ i b. ground (arith, h (suc i)))))

pub length-drop : (t : List ℕ) (n : ℕ) → length (drop n t) ≡ length t - n
length-drop t zero = omega arith
length-drop [] (suc n) = omega arith
length-drop (c ∷ t) (suc n) = omega (arith, length-drop t n)

module _ {S : Type 0} (calls : Calls S) (fd : Word) (Left : List ℕ → S → Type 0)
    (Shown : List ℕ → S → S → Type 0) (stream : IsStream calls fd Left Shown) where
  -- Over system calls that give a file part by part and show what is written to descriptor 1, and
  -- with more rounds than bytes are left, the loop of cat comes to its end, returns 0, and has shown
  -- the bytes that were left, in order.
  pub cat_loop-Shown :
      (f : ℕ) (t : List ℕ) (buf : Memory) (s : S)
      → Left t s
      → length t < f
      → (s' : S) × (cat_loop calls f fd buf s ≡ some (0, s')) × Shown t s s'
  unfolding cat_loop
  cat_loop-Shown zero t buf s l h = absurd (omega arith)
  cat_loop-Shown (suc f) [] buf s l h =
      let (buf', s', e, sh) = stream.at_end buf s l in (s', rw e refl, sh)
  cat_loop-Shown (suc f) (c ∷ t) buf s l h =
      let (n, buf', s', e, pos, fits, small, same, left, sh) =
        stream.part (c ∷ t) buf s l (omega arith) in
      let (r, s2, e2, ok, left2, sh2) = stream.shows (drop n (c ∷ t)) buf' n s' left small in
      let (s3, e3, sh3) =
        cat_loop-Shown f (drop n (c ∷ t)) buf' s2 left2 (omega (arith, length-drop (c ∷ t) n)) in
      let t0 : (n == 0) ≡ false = ground arith in
      let t1 : (n == minus_one) ≡ false = ground arith in
      let t2 : (r == minus_one) ≡ false = ground (arith, ok) in
      (
        s3,
        rw (e, t0, t1, e2, t2) e3,
        subst (λ x. Shown x s s3) (slice-take (c ∷ t) buf' n 0 fits (λ i b. ground (arith, same i)))
            (stream.joins (slice buf' 0 n) (drop n (c ∷ t)) s s2 s3
              (stream.joins [] (slice buf' 0 n) s s' s2 sh sh2) sh3),
      )
