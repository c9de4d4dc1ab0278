-- ===== src/Programs/Syserr/Passing.antt =====
-- The tests of syscalls/ece391syserr.c on the modelled kernel.
use native.Mathlib.Decide.{dec_lt}
use fuzzy_os.Base.{
  List, Memory, Option, Option-cases, Ports, Word, [], ap, arith, bytes, false, inl, inr, length,
  minus_one, not, refl, slt, some, suc, sym, true, zero, ℕ, ◌+◌, ◌<◌, ◌==◌, ◌||◌, ◌∙◌, ◌∷◌, ◌≡◌,
  ◌≢◌, ◌≤◌,
}
use fuzzy_os.FileSystem.{Dentry}
use fuzzy_os.Files.{look_up}
use fuzzy_os.Kernel.{Kernel, entry, pcb_address, terminal_fops}
use fuzzy_os.Programs.Calls.{kernel_calls}
use fuzzy_os.Programs.Cat.Files.{terminal_write-OnlyPrints}
use fuzzy_os.Programs.Cat.Kernel.{write_call-terminal}
use fuzzy_os.Programs.Support.{ece391_strlen, fdputs}
use fuzzy_os.Programs.Syserr.{
  big_num, close_unopened, err_bad_fd, err_big_fd, err_neg_fd, err_open, err_stdin_out,
  err_syscall_num, err_unopened, err_vidmap, neg_num, read_unopened, verdict, write_unopened,
}
use fuzzy_os.Programs.Syserr.Texts.{
  big_fd_fail, big_fd_pass, helloo, neg_fd_fail, neg_fd_pass, open_fail, open_pass, shel,
  stdin_out_fail, stdin_out_pass, syscall_num_fail, syscall_num_pass, unopened_fail, unopened_pass,
  vidmap_fail, vidmap_pass,
}
use fuzzy_os.Syscalls.{Wait, sys_close, sys_open, sys_read, sys_write, vidmap}
use fuzzy_os.Syscalls.Access.{descriptors_refused}
use fuzzy_os.TerminalDriver.{terminal_write}

-- Descriptor 1 is the terminal, and the descriptors from 2 on are free.
pub record Ready (k : Kernel) : Type 0 where
  pub screen : (entry k 1).fops ≡ terminal_fops
  pub screen_used : (entry k 1).flags ≢ 0
  pub free : (j : ℕ) → 2 ≤ j → j < 8 → (entry k j).flags ≡ 0

-- The kernel when a text has been written to the terminal.
abbrev pub after_text : List ℕ → Kernel → Kernel
after_text s k = record k {
  keys = record (k.keys) { con = (terminal_write (some (bytes s)) (ece391_strlen s) k.keys.con).1 };
}

after_text-entry : (s : List ℕ) (k : Kernel) (j : ℕ) → entry (after_text s k) j ≡ entry k j
after_text-entry s k j =
    ap (λ x. (k.pcbs (pcb_address x (k.process_num x))).fda j)
      (terminal_write-OnlyPrints (bytes s) (ece391_strlen s) k.keys.con).execute

pub after_text-Ready : (s : List ℕ) (k : Kernel) → Ready k → Ready (after_text s k)
after_text-Ready s k r = record {
  screen = ap (λ e. e.fops) (after_text-entry s k 1) ∙ r.screen;
  screen_used = λ z. r.screen_used (sym (ap (λ e. e.flags) (after_text-entry s k 1)) ∙ z);
  free = λ j lo hi. ap (λ e. e.flags) (after_text-entry s k j) ∙ r.free j lo hi;
}

-- A test that returns 0, and has written its message and nothing else.
abbrev pub Passes : (Kernel → Option (Word × Kernel)) → List ℕ → Type 0
Passes test pass = (k : Kernel) → Ready k → test k ≡ some (0, after_text pass k)

ece391_strlen_le : (s : List ℕ) → ece391_strlen s ≤ length s
unfolding ece391_strlen
ece391_strlen_le [] = omega arith
ece391_strlen_le (c ∷ s) = ground (arith, ece391_strlen_le s)

module _ (stack : Memory) (junk : Dentry) (read : Ports → ℕ → ℕ) (table : Word)
    (waiting : Kernel → Wait) (linkage : Word → Kernel → Option (Word × Kernel)) where
  pub fdputs-after_text :
      (s : List ℕ) (k : Kernel)
      → length s ≤ 1024
      → Ready k
      → fdputs (kernel_calls stack junk read table waiting linkage) 1 s k ≡ some (after_text s k)
  unfolding fdputs
  fdputs-after_text s k l r =
      let short : ece391_strlen s ≤ 1024 = omega (arith, ece391_strlen_le s) in
      rw
        (write_call-terminal stack junk read table waiting linkage (bytes s) (ece391_strlen s) k
          r.screen r.screen_used short)
        refl

  pub verdict_pass :
      (pass failed : List ℕ) (k : Kernel)
      → length pass ≤ 1024
      → Ready k
      → verdict (kernel_calls stack junk read table waiting linkage) pass failed 0 k
        ≡ some (0, after_text pass k)
  verdict_pass pass failed k l r = rw (fdputs-after_text pass k l r) refl

  pub err_neg_fd-Passes :
      (buf : Memory)
      → Passes (err_neg_fd (kernel_calls stack junk read table waiting linkage) buf) neg_fd_pass
  unfolding err_neg_fd err_bad_fd kernel_calls sys_read sys_write sys_close
  err_neg_fd-Passes buf k r = verdict_pass neg_fd_pass neg_fd_fail k (omega arith) r

  pub err_big_fd-Passes :
      (buf : Memory)
      → Passes (err_big_fd (kernel_calls stack junk read table waiting linkage) buf) big_fd_pass
  unfolding err_big_fd err_bad_fd kernel_calls sys_read sys_write sys_close
  err_big_fd-Passes buf k r = verdict_pass big_fd_pass big_fd_fail k (omega arith) r

  pub err_vidmap-Passes :
      Passes (err_vidmap (kernel_calls stack junk read table waiting linkage)) vidmap_pass
  unfolding err_vidmap kernel_calls vidmap
  err_vidmap-Passes k r = verdict_pass vidmap_pass vidmap_fail k (omega arith) r

  pub err_stdin_out-Passes :
      (buf : Memory)
      → Passes
          (err_stdin_out (kernel_calls stack junk read table waiting linkage) buf)
          stdin_out_pass
  unfolding err_stdin_out kernel_calls sys_read sys_write
  err_stdin_out-Passes buf k r = verdict_pass stdin_out_pass stdin_out_fail k (omega arith) r

  pub err_syscall_num-Passes :
      ((n : Word) (k : Kernel) → (slt n 1 || slt 10 n) ≡ true → linkage n k ≡ some (minus_one, k))
      → Passes
          (err_syscall_num (kernel_calls stack junk read table waiting linkage))
          syscall_num_pass
  unfolding err_syscall_num kernel_calls
  err_syscall_num-Passes h k r =
      rw (h big_num k refl, h neg_num k refl, h 0 k refl)
        (verdict_pass syscall_num_pass syscall_num_fail k (omega arith) r)

  -- A name that the image does not have.
  sys_open_missing :
      (name : List ℕ) (k : Kernel)
      → (look_up stack junk k (some name)).0 ≢ 0
      → sys_open stack junk read (some name) k ≡ some (minus_one, k)
  unfolding sys_open
  sys_open_missing name k h =
      let t : (not ((look_up stack junk k (some name)).0 == 0)) ≡ true = ground (arith, h) in
      elim (Option-cases (look_up stack junk k (some name)).1) [
        | inl e ↦ rw (e, sys_open) refl
        | inr (file, e) ↦ rw (e, sys_open) (rw t refl)
      ]

  pub err_open-Passes :
      (k : Kernel)
      → Ready k
      → (look_up stack junk k (some helloo)).0 ≢ 0
      → (look_up stack junk k (some shel)).0 ≢ 0
      → (look_up stack junk k (some [])).0 ≢ 0
      → err_open (kernel_calls stack junk read table waiting linkage) k
        ≡ some (0, after_text open_pass k)
  unfolding err_open kernel_calls
  err_open-Passes k r a b c =
      rw (sys_open_missing helloo k a, sys_open_missing shel k b, sys_open_missing [] k c)
        (verdict_pass open_pass open_fail k (omega arith) r)

  -- The calls on a descriptor that is not in use, or that they do not take.
  close_refused :
      (i : ℕ) (k : Kernel)
      → i < 8
      → Ready k
      → (kernel_calls stack junk read table waiting linkage).close_call i k ≡ some (minus_one, k)
  unfolding kernel_calls sys_close
  close_refused i k l r = elim (dec_lt i 2) [
    | yes q ↦ let t : slt i 2 || slt 7 i ≡ true = ground arith in rw t refl
    | no n ↦
        let t : slt i 2 || slt 7 i ≡ false = ground arith in
        let u : (entry k i).flags == 0 ≡ true = ground (arith, r.free i (omega arith) l) in
        rw (t, u) refl
  ]

  read_refused :
      (i : ℕ) (buf : Memory) (k : Kernel)
      → 2 ≤ i
      → i < 8
      → Ready k
      → (kernel_calls stack junk read table waiting linkage).read_call i buf 31 k
        ≡ some (minus_one, buf, k)
  unfolding kernel_calls
  read_refused i buf k lo hi r =
      rw
        ((descriptors_refused stack junk read (waiting k) i (some buf) 31 k (omega arith)
          (inr (r.free i lo hi))).0)
        refl

  write_refused :
      (i : ℕ) (buf : Memory) (k : Kernel)
      → 2 ≤ i
      → i < 8
      → Ready k
      → (kernel_calls stack junk read table waiting linkage).write_call i buf 31 k
        ≡ some (minus_one, k)
  unfolding kernel_calls
  write_refused i buf k lo hi r =
      (descriptors_refused stack junk read (waiting k) i (some buf) 31 k (omega arith)
        (inr (r.free i lo hi))).1

  close_unopened_none :
      (n i : ℕ) (k : Kernel)
      → i + n ≤ 8
      → Ready k
      → close_unopened (kernel_calls stack junk read table waiting linkage) n i 0 k ≡ some (0, k)
  unfolding close_unopened
  close_unopened_none zero i k l r = refl
  close_unopened_none (suc n) i k l r =
      rw (close_refused i k (omega arith) r) (close_unopened_none n (i + 1) k (omega arith) r)

  read_unopened_none :
      (n i : ℕ) (buf : Memory) (k : Kernel)
      → 2 ≤ i
      → i + n ≤ 8
      → Ready k
      → read_unopened (kernel_calls stack junk read table waiting linkage) n i 0 buf k
        ≡ some (0, buf, k)
  unfolding read_unopened
  read_unopened_none zero i buf k lo l r = refl
  read_unopened_none (suc n) i buf k lo l r =
      rw (read_refused i buf k lo (omega arith) r)
        (read_unopened_none n (i + 1) buf k (omega arith) (omega arith) r)

  write_unopened_none :
      (n i : ℕ) (buf : Memory) (k : Kernel)
      → 2 ≤ i
      → i + n ≤ 8
      → Ready k
      → write_unopened (kernel_calls stack junk read table waiting linkage) n i 0 buf k
        ≡ some (0, k)
  unfolding write_unopened
  write_unopened_none zero i buf k lo l r = refl
  write_unopened_none (suc n) i buf k lo l r =
      rw (write_refused i buf k lo (omega arith) r)
        (write_unopened_none n (i + 1) buf k (omega arith) (omega arith) r)

  pub err_unopened-Passes :
      (buf : Memory)
      → Passes (err_unopened (kernel_calls stack junk read table waiting linkage) buf) unopened_pass
  unfolding err_unopened
  err_unopened-Passes buf k r =
      rw
        (
          close_unopened_none 8 0 k (omega arith) r,
          read_unopened_none 6 2 buf k (omega arith) (omega arith) r,
          write_unopened_none 6 2 buf k (omega arith) (omega arith) r,
        )
        (verdict_pass unopened_pass unopened_fail k (omega arith) r)
