-- ===== src/Programs/Syserr/Lots.antt =====
-- err_open_lots of syscalls/ece391syserr.c on the modelled kernel: six directories can be open at a
-- time, and closing gives every descriptor back.
use mathlib.Core.Path.{subst}
use native.Mathlib.Decide.{dec_lt}
use fuzzy_os.Base.{
  Memory, Option, Ports, Word, ap, arith, false, if◌then◌else◌, minus_one, none, not, refl, slt,
  some, suc, sym, true, zero, ℕ, ◌+◌, ◌<◌, ◌==◌, ◌||◌, ◌∙◌, ◌≡◌, ◌≢◌, ◌≤◌,
}
use fuzzy_os.FileSystem.{Dentry, read_dentry_by_name}
use fuzzy_os.Files.{dir_open, look_up, open_entry}
use fuzzy_os.Kernel.{
  FdaEntry, Kernel, closed_entry, directory_fops, entry, get_pcb, set_entry, terminal_fops,
}
use fuzzy_os.Programs.Calls.{kernel_calls}
use fuzzy_os.Programs.Syserr.{close_lots, err_open_lots, open_lots}
use fuzzy_os.Programs.Syserr.Passing.{Ready, after_text, verdict_pass}
use fuzzy_os.Programs.Syserr.Texts.{dot, open_lots_fail, open_lots_pass}
use fuzzy_os.Syscalls.{Wait, close_kind, find_free, open_kind, sys_close, sys_open}

-- The descriptors below `m` are open directories, and those from `m` on are free.
pub record Open (img : Memory) (m : ℕ) (k : Kernel) : Type 0 where
  pub image : k.image ≡ img
  pub screen : (entry k 1).fops ≡ terminal_fops
  pub screen_used : (entry k 1).flags ≢ 0
  pub directory : (j : ℕ) → 2 ≤ j → j < m → entry k j ≡ open_entry directory_fops minus_one 0
  pub free : (j : ℕ) → m ≤ j → j < 8 → (entry k j).flags ≡ 0

find_free_at :
    (fda : ℕ → FdaEntry) (n i m : ℕ)
    → i ≤ m
    → m < i + n
    → ((j : ℕ) → i ≤ j → j < m → (fda j).flags ≢ 0)
    → (fda m).flags ≡ 0
    → find_free fda n i ≡ some m
unfolding find_free
find_free_at fda zero i m lo hi used free = absurd (omega arith)
find_free_at fda (suc n) i m lo hi used free = elim (dec_lt i m) [
  | yes l ↦
      let t : ((fda i).flags == 0) ≡ false = ground (arith, used i) in
      rw t (
        find_free_at fda n (i + 1) m (omega arith) (omega arith) (λ j p q. used j (omega arith) q)
          free)
  | no l ↦
      let e : m ≡ i = omega arith in
      let t : ((fda i).flags == 0) ≡ true =
        subst (λ x. ((fda x).flags == 0) ≡ true) e (ground (arith, free)) in
      rw (t, e) refl
]

find_free-none :
    (fda : ℕ → FdaEntry) (n i : ℕ)
    → ((j : ℕ) → i ≤ j → j < i + n → (fda j).flags ≢ 0)
    → find_free fda n i ≡ none
unfolding find_free
find_free-none fda zero i used = refl
find_free-none fda (suc n) i used =
    let t : ((fda i).flags == 0) ≡ false = ground (arith, used i) in
    rw t (find_free-none fda n (i + 1) (λ j p q. used j (omega arith) (omega arith)))

set_entry_at :
    (fd j : ℕ) (e : FdaEntry) (k : Kernel)
    → entry (set_entry fd e k) j ≡ (if j == fd then e else entry k j)
set_entry_at fd j e k = ground arith

module _ (stack : Memory) (junk : Dentry) (read : Ports → ℕ → ℕ) (table : Word)
    (waiting : Kernel → Wait) (linkage : Word → Kernel → Option (Word × Kernel)) (img : Memory)
    (file : Dentry) (is_directory : file.file_type ≡ 1)
    (found : read_dentry_by_name img stack (some dot) (some junk) ≡ (0, some file)) where
  found_dot : (k : Kernel) → k.image ≡ img → look_up stack junk k (some dot) ≡ (0, some file)
  found_dot k e = ap (λ i. read_dentry_by_name i stack (some dot) (some junk)) e ∙ found

  found_zero :
      (k : Kernel) → k.image ≡ img → (not ((look_up stack junk k (some dot)).0 == 0)) ≡ false
  found_zero k e = ap (λ r. not (r.0 == 0)) (found_dot k e)

  sys_open-Open :
      (m : ℕ) (k : Kernel)
      → 2 ≤ m
      → m < 8
      → Open img m k
      → sys_open stack junk read (some dot) k
        ≡ some (m, set_entry m (open_entry directory_fops minus_one 0) k)
  unfolding sys_open open_kind dir_open
  sys_open-Open m k lo hi o =
      let f : find_free (get_pcb k).fda 6 2 ≡ some m =
        find_free_at (get_pcb k).fda 6 2 m lo (omega arith)
          (λ j p q. (let e = o.directory j p q in ground (arith, ap (λ x. x.flags) e)))
          (o.free m (omega arith) hi) in
      rw (found_dot k o.image, sys_open) (rw (found_zero k o.image, f, is_directory) refl)

  sys_open-full :
      (k : Kernel) → Open img 8 k → sys_open stack junk read (some dot) k ≡ some (minus_one, k)
  unfolding sys_open
  sys_open-full k o =
      let f : find_free (get_pcb k).fda 6 2 ≡ none =
        find_free-none (get_pcb k).fda 6 2
          (λ j p q. (let e = o.directory j p q in ground (arith, ap (λ x. x.flags) e))) in
      rw (found_dot k o.image, sys_open) (rw (found_zero k o.image, f) refl)

  Open-next :
      (m : ℕ) (k : Kernel)
      → 2 ≤ m
      → Open img m k
      → Open img (m + 1) (set_entry m (open_entry directory_fops minus_one 0) k)
  Open-next m k lo o = record {
    image = o.image;
    screen = ap (λ e. e.fops) (other 1 (omega arith)) ∙ o.screen;
    screen_used = λ z. o.screen_used (sym (ap (λ e. e.flags) (other 1 (omega arith))) ∙ z);
    directory = λ j p q. elim (dec_lt j m) [
      | yes l ↦ other j (omega arith) ∙ o.directory j p l
      | no l ↦
          let e : j ≡ m = omega arith in
          let t : (j == m) ≡ true = ground arith in
          set_entry_at m j (open_entry directory_fops minus_one 0) k ∙ rw t refl
    ];
    free = λ j p q. ap (λ e. e.flags) (other j (omega arith)) ∙ o.free j (omega arith) q;
  }
    where
      other :
          (j : ℕ)
          → j ≢ m
          → entry (set_entry m (open_entry directory_fops minus_one 0) k) j ≡ entry k j
      other j n =
          let t : (j == m) ≡ false = ground arith in
          set_entry_at m j (open_entry directory_fops minus_one 0) k ∙ rw t refl

  -- The seven calls of open: one fails, when six directories are open.
  open_lots_rest :
      (n m : ℕ) (k : Kernel)
      → 2 ≤ m
      → m + n ≡ 8
      → Open img m k
      → (k' : Kernel) × (open_lots (kernel_calls stack junk read table waiting linkage) (suc n) 0 k
          ≡ some (1, k'))
        × (k'.keys ≡ k.keys)
        × Open img 8 k'
  unfolding open_lots kernel_calls
  open_lots_rest zero m k lo s o =
      let e : m ≡ 8 = omega arith in
      let o' : Open img 8 k = subst (λ x. Open img x k) e o in
      (k, rw (sys_open-full k o') refl, refl, o')
  open_lots_rest (suc n) m k lo s o =
      let k1 : Kernel = set_entry m (open_entry directory_fops minus_one 0) k in
      let (k', e, keys, o') =
        open_lots_rest n (m + 1) k1 (omega arith) (omega arith) (Open-next m k lo o) in
      let t : (m == minus_one) ≡ false = ground arith in
      (k', rw (sys_open-Open m k lo (omega arith) o, t) e, keys, o')

  -- Closing gives the descriptors back, the lowest first.
  record Closed (m : ℕ) (k : Kernel) : Type 0 where
    screen : (entry k 1).fops ≡ terminal_fops
    screen_used : (entry k 1).flags ≢ 0
    directory : (j : ℕ) → m ≤ j → j < 8 → entry k j ≡ open_entry directory_fops minus_one 0
    free : (j : ℕ) → 2 ≤ j → j < m → (entry k j).flags ≡ 0

  close_next :
      (m : ℕ) (k : Kernel)
      → 2 ≤ m
      → m < 8
      → Closed m k
      → sys_close m k ≡ (0, set_entry m closed_entry k)
  unfolding sys_close close_kind
  close_next m k lo hi c =
      let t1 : (slt m 2 || slt 7 m) ≡ false = ground arith in
      let e : entry k m ≡ open_entry directory_fops minus_one 0 = c.directory m (omega arith) hi in
      let t2 : ((entry k m).flags == 0) ≡ false = ap (λ x. x.flags == 0) e in
      let t3 : (entry k m).fops ≡ directory_fops = ap (λ x. x.fops) e in rw (t1, t2, t3) refl

  Closed-next :
      (m : ℕ) (k : Kernel) → 2 ≤ m → Closed m k → Closed (m + 1) (set_entry m closed_entry k)
  Closed-next m k lo c = record {
    screen = ap (λ e. e.fops) (other 1 (omega arith)) ∙ c.screen;
    screen_used = λ z. c.screen_used (sym (ap (λ e. e.flags) (other 1 (omega arith))) ∙ z);
    directory = λ j p q. other j (omega arith) ∙ c.directory j (omega arith) q;
    free = λ j p q. elim (dec_lt j m) [
      | yes l ↦ ap (λ e. e.flags) (other j (omega arith)) ∙ c.free j p l
      | no l ↦
          let t : (j == m) ≡ true = ground arith in
          ap (λ e. e.flags) (set_entry_at m j closed_entry k) ∙ rw t refl
    ];
  }
    where
      other : (j : ℕ) → j ≢ m → entry (set_entry m closed_entry k) j ≡ entry k j
      other j n =
          let t : (j == m) ≡ false = ground arith in set_entry_at m j closed_entry k ∙ rw t refl

  close_lots_rest :
      (n m : ℕ) (k : Kernel)
      → 2 ≤ m
      → m + n ≡ 8
      → Closed m k
      → (k' : Kernel) × (close_lots (kernel_calls stack junk read table waiting linkage) n m k
          ≡ some k')
        × (k'.keys ≡ k.keys)
        × (k'.image ≡ k.image)
        × Closed 8 k'
  unfolding close_lots kernel_calls
  close_lots_rest zero m k lo s c =
      let e : m ≡ 8 = omega arith in (k, refl, refl, refl, subst (λ x. Closed x k) e c)
  close_lots_rest (suc n) m k lo s c =
      let (k', e, keys, image, c') =
        close_lots_rest n (m + 1) (set_entry m closed_entry k) (omega arith) (omega arith)
          (Closed-next m k lo c) in
      (k', rw (close_next m k lo (omega arith) c) e, keys, image, c')

  -- With the directory "." in the image, exactly one of the seven opens fails, and afterwards the
  -- descriptors from 2 on are free again.
  pub err_open_lots_lem :
      (k : Kernel)
      → k.image ≡ img
      → Ready k
      → (k' : Kernel) × (err_open_lots (kernel_calls stack junk read table waiting linkage) k
          ≡ some (0, after_text open_lots_pass k'))
        × (k'.keys ≡ k.keys)
        × (k'.image ≡ img)
        × Ready k'
  unfolding err_open_lots
  err_open_lots_lem k e r =
      let o : Open img 2 k = record {
        image = e;
        screen = r.screen;
        screen_used = r.screen_used;
        directory = λ j p q. absurd (omega arith);
        free = r.free;
      } in
      let (k1, e1, keys1, o1) = open_lots_rest 6 2 k (omega arith) (omega arith) o in
      let c : Closed 2 k1 = record {
        screen = o1.screen;
        screen_used = o1.screen_used;
        directory = λ j p q. o1.directory j p q;
        free = λ j p q. absurd (omega arith);
      } in
      let (k2, e2, keys2, image2, c2) = close_lots_rest 6 2 k1 (omega arith) (omega arith) c in
      let r2 : Ready k2 = record {
        screen = c2.screen;
        screen_used = c2.screen_used;
        free = c2.free;
      } in
      (
        k2,
        rw (e1, e2)
            (verdict_pass stack junk read table waiting linkage open_lots_pass open_lots_fail k2
              (omega arith) r2),
        keys2 ∙ keys1,
        image2 ∙ o1.image,
        r2,
      )
