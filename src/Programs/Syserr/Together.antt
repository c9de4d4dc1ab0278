-- ===== src/Programs/Syserr/Together.antt =====
-- All the tests of syscalls/ece391syserr.c in a row on the modelled kernel.
use mathlib.Core.Path.{subst}
use fuzzy_os.Base.{
  List, Memory, Option, Ports, Word, [], ap, arith, bind_some, bytes, minus_one, refl, slice, slt,
  some, sym, true, ℕ, ◌++◌, ◌||◌, ◌∙◌, ◌≡◌, ◌≢◌,
}
use fuzzy_os.FileSystem.{Dentry, read_dentry_by_name}
use fuzzy_os.Files.{look_up}
use fuzzy_os.Kernel.{Kernel}
use fuzzy_os.Programs.Calls.{kernel_calls}
use fuzzy_os.Programs.Cat.Files.{Writes, Writes-trans, nothing, write_more}
use fuzzy_os.Programs.Support.{ece391_strlen}
use fuzzy_os.Programs.Syserr.{all_tests}
use fuzzy_os.Programs.Syserr.Lots.{err_open_lots_lem}
use fuzzy_os.Programs.Syserr.Passing.{
  Ready, after_text, after_text-Ready, err_big_fd-Passes, err_neg_fd-Passes, err_open-Passes,
  err_stdin_out-Passes, err_syscall_num-Passes, err_unopened-Passes, err_vidmap-Passes,
  verdict_pass,
}
use fuzzy_os.Programs.Syserr.Texts.{
  big_fd_pass, dot, helloo, neg_fd_pass, open_lots_pass, open_pass, overall_fail, overall_pass,
  shel, stdin_out_pass, syscall_num_pass, unopened_pass, vidmap_pass,
}
use fuzzy_os.Syscalls.{Wait}

-- A text has been written to the terminal, the descriptors are ready and the image is the same.
pub record Says (s : List ℕ) (k k' : Kernel) : Type 0 where
  pub written_text : Writes s k.keys.con k'.keys.con
  pub ready : Ready k'
  pub image : k'.image ≡ k.image

Says-trans : (a b : List ℕ) (k l m : Kernel) → Says a k l → Says b l m → Says (a ++ b) k m
Says-trans a b k l m p q = record {
  written_text = Writes-trans a b k.keys.con l.keys.con m.keys.con p.written_text q.written_text;
  ready = q.ready;
  image = q.image ∙ p.image;
}

after_text-Says :
    (s : List ℕ) (k : Kernel)
    → slice (bytes s) 0 (ece391_strlen s) ≡ s
    → Ready k
    → Says s k (after_text s k)
after_text-Says s k e r = record {
  written_text =
      subst (λ x. Writes x k.keys.con (after_text s k).keys.con) e
        (write_more [] (bytes s) (ece391_strlen s) k.keys.con k.keys.con (nothing k.keys.con));
  ready = after_text-Ready s k r;
  image = refl;
}

-- What the tests print.
abbrev pub passed : List ℕ
passed =
    neg_fd_pass
    ++ (big_fd_pass
        ++ (open_lots_pass
            ++ (open_pass
                ++ (unopened_pass
                    ++ (vidmap_pass ++ (stdin_out_pass ++ (syscall_num_pass ++ overall_pass)))))))

module _ (stack : Memory) (junk : Dentry) (read : Ports → ℕ → ℕ) (table : Word)
    (waiting : Kernel → Wait) (linkage : Word → Kernel → Option (Word × Kernel)) where
  -- The linkage of systemcall.S refuses a number that is not one of the ten calls.
  abbrev pub Refuses : Type 0
  Refuses =
      (n : Word) (k : Kernel) → (slt n 1 || slt 10 n) ≡ true → linkage n k ≡ some (minus_one, k)

  -- On an image with the directory "." and without the three wrong names, in a process with the
  -- terminal as descriptor 1 and the descriptors 2 to 7 free, and with an assembly linkage that
  -- refuses other numbers than those of the ten calls, the eight tests in a row return 0, and write
  -- their eight messages and the overall one that say that they have passed.
  pub all_tests-Says :
      (buf : Memory) (k : Kernel) (file : Dentry)
      → Ready k
      → file.file_type ≡ 1
      → read_dentry_by_name k.image stack (some dot) (some junk) ≡ (0, some file)
      → (read_dentry_by_name k.image stack (some helloo) (some junk)).0 ≢ 0
      → (read_dentry_by_name k.image stack (some shel) (some junk)).0 ≢ 0
      → (read_dentry_by_name k.image stack (some []) (some junk)).0 ≢ 0
      → Refuses
      → (k' : Kernel) × (all_tests (kernel_calls stack junk read table waiting linkage) buf k
          ≡ some (0, k'))
        × Says passed k k'
  unfolding all_tests ece391_strlen
  all_tests-Says buf k file r dir dot_found no_helloo no_shel no_empty refuses =
      let k1 : Kernel = after_text neg_fd_pass k in
      let r1 : Ready k1 = after_text-Ready neg_fd_pass k r in
      let k2 : Kernel = after_text big_fd_pass k1 in
      let r2 : Ready k2 = after_text-Ready big_fd_pass k1 r1 in
      let (l, e3, keys, image, rl) =
        err_open_lots_lem stack junk read table waiting linkage k.image file dir dot_found k2 refl
          r2 in
      let k3 : Kernel = after_text open_lots_pass l in
      let r3 : Ready k3 = after_text-Ready open_lots_pass l rl in
      let missing : (s : List ℕ)
          → (read_dentry_by_name k.image stack (some s) (some junk)).0 ≢ 0
          → (look_up stack junk k3 (some s)).0 ≢ 0 =
        λ s h z.
          h (sym (ap (λ i. (read_dentry_by_name i stack (some s) (some junk)).0) image) ∙ z) in
      let k4 : Kernel = after_text open_pass k3 in
      let r4 : Ready k4 = after_text-Ready open_pass k3 r3 in
      let k5 : Kernel = after_text unopened_pass k4 in
      let r5 : Ready k5 = after_text-Ready unopened_pass k4 r4 in
      let k6 : Kernel = after_text vidmap_pass k5 in
      let r6 : Ready k6 = after_text-Ready vidmap_pass k5 r5 in
      let k7 : Kernel = after_text stdin_out_pass k6 in
      let r7 : Ready k7 = after_text-Ready stdin_out_pass k6 r6 in
      let k8 : Kernel = after_text syscall_num_pass k7 in
      let r8 : Ready k8 = after_text-Ready syscall_num_pass k7 r7 in
      let k9 : Kernel = after_text overall_pass k8 in
      let quiet : Says [] k2 l = record {
        written_text =
            subst (λ c. Writes [] k2.keys.con c) (sym (ap (λ x. x.con) keys)) (nothing k2.keys.con);
        ready = rl;
        image = image;
      } in
      (
        k9,
        bind_some _ _ _ _ (err_neg_fd-Passes stack junk read table waiting linkage buf k r) (
            bind_some _ _ _ _ (err_big_fd-Passes stack junk read table waiting linkage buf k1 r1) (
              bind_some _ _ _ _ e3 (
                bind_some _ _ _ _
                  (err_open-Passes stack junk read table waiting linkage k3 r3
                    (missing helloo no_helloo) (missing shel no_shel) (missing [] no_empty))
                  (bind_some _ _ _ _
                    (err_unopened-Passes stack junk read table waiting linkage buf k4 r4)
                    (bind_some _ _ _ _
                      (err_vidmap-Passes stack junk read table waiting linkage k5 r5)
                      (bind_some _ _ _ _
                        (err_stdin_out-Passes stack junk read table waiting linkage buf k6 r6)
                        (bind_some _ _ _ _
                          (err_syscall_num-Passes stack junk read table waiting linkage refuses k7
                            r7)
                          (verdict_pass stack junk read table waiting linkage overall_pass
                            overall_fail k8 (omega arith) r8)))))))),
        Says-trans neg_fd_pass _ k k1 k9 (after_text-Says neg_fd_pass k refl r) (
            Says-trans big_fd_pass _ k1 k2 k9 (after_text-Says big_fd_pass k1 refl r1) (
              Says-trans open_lots_pass _ k2 k3 k9
                (Says-trans [] open_lots_pass k2 l k3 quiet
                  (after_text-Says open_lots_pass l refl rl))
                (Says-trans open_pass _ k3 k4 k9 (after_text-Says open_pass k3 refl r3) (
                  Says-trans unopened_pass _ k4 k5 k9 (after_text-Says unopened_pass k4 refl r4) (
                    Says-trans vidmap_pass _ k5 k6 k9 (after_text-Says vidmap_pass k5 refl r5) (
                      Says-trans stdin_out_pass _ k6 k7 k9
                        (after_text-Says stdin_out_pass k6 refl r6)
                        (Says-trans syscall_num_pass _ k7 k8 k9
                          (after_text-Says syscall_num_pass k7 refl r7)
                          (after_text-Says overall_pass k8 refl r8)))))))),
      )
