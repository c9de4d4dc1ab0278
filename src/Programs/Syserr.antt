-- ===== src/Programs/Syserr.antt =====
-- syscalls/ece391syserr.c, the tests of wrong system calls, over the system calls.
pub mod Texts
pub mod Passing
pub mod Lots
pub mod Together
use fuzzy_os.Base.{
  List, Memory, Option, Word, [], add32, if◌then◌else◌, minus_one, some, sub32, suc, zero, ℕ, ◌+◌,
  ◌-◌, ◌==◌, ◌>>=◌, ◌^◌,
}
use fuzzy_os.Interrupts.Messages.{message}
use fuzzy_os.Programs.Calls.{Calls}
use fuzzy_os.Programs.Support.{fdputs}
use fuzzy_os.Programs.Syserr.Texts.{
  big_fd_fail, big_fd_pass, big_num_fail, choose_text, close_fail, close_unopened_fail, dot,
  empty_string_fail, helloo, helloo_fail, invalid_text, kernel_pointer_fail, neg_fd_fail,
  neg_fd_pass, neg_num_fail, no_test_text, null_pointer_fail, open_fail, open_lots_fail,
  open_lots_pass, open_pass, overall_fail, overall_pass, read_fail, read_stdout_fail,
  read_unopened_fail, shel, shel_fail, stdin_out_fail, stdin_out_pass, syscall_0_fail,
  syscall_num_fail, syscall_num_pass, unopened_fail, unopened_pass, vidmap_fail, vidmap_pass,
  write_fail, write_stdin_fail, write_unopened_fail,
}

-- `NEG_FD` and `NEG_NUM`, `BIG_FD` and `BIG_NUM`
abbrev pub neg_num : Word
neg_num = 2 ^ 32 - 1073741823

abbrev pub big_num : Word
big_num = 1073741823

module _ {S : Type 0} (calls : Calls S) where
  -- `if (-1 != result) { fail = 2; ece391_fdputs(1, message); }`
  abbrev pub expect_error : Word → List ℕ → Word → S → Option (Word × S)
  expect_error result message fail st =
      if result == minus_one
      then some (fail, st)
      else (do st1 ← fdputs calls 1 message st; some (2, st1))

  -- The end of a test: the message, and the result.
  abbrev pub verdict : List ℕ → List ℕ → Word → S → Option (Word × S)
  verdict pass failed fail st = do
    st1 ← fdputs calls 1 (if fail == 0 then pass else failed) st
    some (fail, st1)

  -- err_neg_fd and err_big_fd, which differ in the descriptor and the two messages
  unfoldable pub err_bad_fd : Word → List ℕ → List ℕ → Memory → S → Option (Word × S)
  err_bad_fd fd pass failed buf st = do
    r ← calls.read_call fd buf 31 st
    a ← expect_error (r.0) read_fail 0 (r.2)
    w ← calls.write_call fd (r.1) 31 (a.1)
    b ← expect_error (w.0) write_fail (a.0) (w.1)
    c ← calls.close_call fd (b.1)
    d ← expect_error (c.0) close_fail (b.0) (c.1)
    verdict pass failed (d.0) (d.1)

  unfoldable pub err_neg_fd : Memory → S → Option (Word × S)
  unfolding err_bad_fd
  err_neg_fd buf st = err_bad_fd neg_num neg_fd_pass neg_fd_fail buf st

  unfoldable pub err_big_fd : Memory → S → Option (Word × S)
  unfolding err_bad_fd
  err_big_fd buf st = err_bad_fd big_num big_fd_pass big_fd_fail buf st

  -- The first loop of err_open_lots, with `k` rounds left: how many calls have failed.
  unfoldable pub open_lots : ℕ → Word → S → Option (Word × S)
  open_lots zero cnt st = some (cnt, st)
  open_lots (suc k) cnt st = do
    o ← calls.open_call dot st
    open_lots k (if o.0 == minus_one then add32 cnt 1 else cnt) (o.1)

  -- The second loop, from descriptor `i` on; the results are dropped.
  unfoldable pub close_lots : ℕ → ℕ → S → Option S
  close_lots zero i st = some st
  close_lots (suc k) i st = do c ← calls.close_call i st; close_lots k (i + 1) (c.1)

  unfoldable pub err_open_lots : S → Option (Word × S)
  unfolding open_lots close_lots
  err_open_lots st = do
    o ← open_lots 7 0 st
    st1 ← close_lots 6 2 (o.1)
    verdict open_lots_pass open_lots_fail (if o.0 == 1 then 0 else 2) st1

  unfoldable pub err_open : S → Option (Word × S)
  err_open st = do
    a ← calls.open_call helloo st
    b ← expect_error (a.0) helloo_fail 0 (a.1)
    c ← calls.open_call shel (b.1)
    d ← expect_error (c.0) shel_fail (b.0) (c.1)
    e ← calls.open_call [] (d.1)
    f ← expect_error (e.0) empty_string_fail (d.0) (e.1)
    verdict open_pass open_fail (f.0) (f.1)

  -- The three loops of err_unopened, from descriptor `i` on with `k` rounds left.
  unfoldable pub close_unopened : ℕ → ℕ → Word → S → Option (Word × S)
  close_unopened zero i fail st = some (fail, st)
  close_unopened (suc k) i fail st = do
    c ← calls.close_call i st
    a ← expect_error (c.0) close_unopened_fail fail (c.1)
    close_unopened k (i + 1) (a.0) (a.1)

  unfoldable pub read_unopened : ℕ → ℕ → Word → Memory → S → Option (Word × Memory × S)
  read_unopened zero i fail buf st = some (fail, buf, st)
  read_unopened (suc k) i fail buf st = do
    r ← calls.read_call i buf 31 st
    a ← expect_error (r.0) read_unopened_fail fail (r.2)
    read_unopened k (i + 1) (a.0) (r.1) (a.1)

  unfoldable pub write_unopened : ℕ → ℕ → Word → Memory → S → Option (Word × S)
  write_unopened zero i fail buf st = some (fail, st)
  write_unopened (suc k) i fail buf st = do
    w ← calls.write_call i buf 31 st
    a ← expect_error (w.0) write_unopened_fail fail (w.1)
    write_unopened k (i + 1) (a.0) buf (a.1)

  unfoldable pub err_unopened : Memory → S → Option (Word × S)
  unfolding close_unopened read_unopened write_unopened
  err_unopened buf st = do
    a ← close_unopened 8 0 0 st
    b ← read_unopened 6 2 (a.0) buf (a.1)
    c ← write_unopened 6 2 (b.0) (b.1) (b.2)
    verdict unopened_pass unopened_fail (c.0) (c.1)

  unfoldable pub err_vidmap : S → Option (Word × S)
  err_vidmap st = do
    a ← calls.vidmap_call 0 st
    b ← expect_error (a.0) null_pointer_fail 0 (a.1)
    c ← calls.vidmap_call 0x400000 (b.1)
    d ← expect_error (c.0) kernel_pointer_fail (b.0) (c.1)
    verdict vidmap_pass vidmap_fail (d.0) (d.1)

  unfoldable pub err_stdin_out : Memory → S → Option (Word × S)
  err_stdin_out buf st = do
    w ← calls.write_call 0 buf 31 st
    a ← expect_error (w.0) write_stdin_fail 0 (w.1)
    r ← calls.read_call 1 buf 31 (a.1)
    b ← expect_error (r.0) read_stdout_fail (a.0) (r.2)
    verdict stdin_out_pass stdin_out_fail (b.0) (b.1)

  unfoldable pub err_syscall_num : S → Option (Word × S)
  err_syscall_num st = do
    a ← calls.numbered_call big_num st
    b ← expect_error (a.0) syscall_0_fail 0 (a.1)
    c ← calls.numbered_call neg_num (b.1)
    d ← expect_error (c.0) big_num_fail (b.0) (c.1)
    e ← calls.numbered_call 0 (d.1)
    f ← expect_error (e.0) neg_num_fail (d.0) (e.1)
    verdict syscall_num_pass syscall_num_fail (f.0) (f.1)

  -- `fail += …` for each test in turn, and the last message; a test has its own buffer.
  unfoldable pub all_tests : Memory → S → Option (Word × S)
  unfolding err_neg_fd err_big_fd err_open_lots err_open err_unopened err_vidmap err_stdin_out
      err_syscall_num
  all_tests buf st = do
    a ← err_neg_fd buf st
    b ← err_big_fd buf (a.1)
    c ← err_open_lots (b.1)
    d ← err_open (c.1)
    e ← err_unopened buf (d.1)
    f ← err_vidmap (e.1)
    g ← err_stdin_out buf (f.1)
    h ← err_syscall_num (g.1)
    verdict overall_pass overall_fail
        (add32
          (add32 (add32 (add32 (add32 (add32 (add32 (a.0) (b.0)) (c.0)) (d.0)) (e.0)) (f.0)) (g.0))
          (h.0))
        (h.1)

  -- main
  unfoldable pub syserr_main : Memory → S → Option (Word × S)
  unfolding all_tests
  syserr_main buf st = do
    st1 ← fdputs calls 1 choose_text st
    r ← calls.read_call 0 buf 127 st1
    let select : Word = sub32 (r.1 0) 48
    if r.0 == minus_one
        then (do st2 ← fdputs calls 1 no_test_text (r.2); some (2, st2))
        else if select == 0
        then all_tests buf (r.2)
        else if select == 1
        then err_neg_fd buf (r.2)
        else if select == 2
        then err_big_fd buf (r.2)
        else if select == 3
        then err_open_lots (r.2)
        else if select == 4
        then err_open (r.2)
        else if select == 5
        then err_unopened buf (r.2)
        else if select == 6
        then err_vidmap (r.2)
        else if select == 7
        then err_stdin_out buf (r.2)
        else if select == 8
        then err_syscall_num (r.2)
        else (do st2 ← fdputs calls 1 invalid_text (r.2); some (0, st2))
