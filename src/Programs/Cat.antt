-- ===== src/Programs/Cat.antt =====
-- syscalls/ece391cat.c and syscalls/ece391hello.c, over the system calls.
pub mod Streams
pub mod Files
pub mod Kernel
pub mod Running
use fuzzy_os.Base.{
  List, Memory, Option, Word, [], if◌then◌else◌, minus_one, none, not, slice, some, suc, update,
  zero, ℕ, ◌==◌, ◌>>=◌, ◌∷◌,
}
use fuzzy_os.Interrupts.Messages.{message}
use fuzzy_os.Programs.Calls.{Calls}
use fuzzy_os.Programs.Support.{fdputs}

-- "could not read arguments\n"
abbrev pub args_message : List ℕ
args_message =
    99 ∷ 111 ∷ 117 ∷ 108 ∷ 100 ∷ 32 ∷ 110 ∷ 111 ∷ 116 ∷ 32 ∷ 114 ∷ 101 ∷ 97 ∷ 100 ∷ 32 ∷ 97 ∷ 114
    ∷ 103 ∷ 117 ∷ 109 ∷ 101 ∷ 110 ∷ 116 ∷ 115 ∷ 10 ∷ []

-- "file not found\n"
abbrev pub not_found_message : List ℕ
not_found_message =
    102 ∷ 105 ∷ 108 ∷ 101 ∷ 32 ∷ 110 ∷ 111 ∷ 116 ∷ 32 ∷ 102 ∷ 111 ∷ 117 ∷ 110 ∷ 100 ∷ 10 ∷ []

-- "file read failed\n"
abbrev pub read_failed_message : List ℕ
read_failed_message =
    102 ∷ 105 ∷ 108 ∷ 101 ∷ 32 ∷ 114 ∷ 101 ∷ 97 ∷ 100 ∷ 32 ∷ 102 ∷ 97 ∷ 105 ∷ 108 ∷ 101 ∷ 100 ∷ 10
    ∷ []

-- "Hi, what's your name? "
abbrev pub name_question : List ℕ
name_question =
    72 ∷ 105 ∷ 44 ∷ 32 ∷ 119 ∷ 104 ∷ 97 ∷ 116 ∷ 39 ∷ 115 ∷ 32 ∷ 121 ∷ 111 ∷ 117 ∷ 114 ∷ 32 ∷ 110
    ∷ 97 ∷ 109 ∷ 101 ∷ 63 ∷ 32 ∷ []

-- "Can't read name from keyboard.\n"
abbrev pub no_name_message : List ℕ
no_name_message =
    67 ∷ 97 ∷ 110 ∷ 39 ∷ 116 ∷ 32 ∷ 114 ∷ 101 ∷ 97 ∷ 100 ∷ 32 ∷ 110 ∷ 97 ∷ 109 ∷ 101 ∷ 32 ∷ 102
    ∷ 114 ∷ 111 ∷ 109 ∷ 32 ∷ 107 ∷ 101 ∷ 121 ∷ 98 ∷ 111 ∷ 97 ∷ 114 ∷ 100 ∷ 46 ∷ 10 ∷ []

-- "Hello, "
abbrev pub hello_message : List ℕ
hello_message = 72 ∷ 101 ∷ 108 ∷ 108 ∷ 111 ∷ 44 ∷ 32 ∷ []

module _ {S : Type 0} (calls : Calls S) where
  -- A message on descriptor 1, and the value that main returns.
  abbrev pub fail_with : List ℕ → Word → S → Option (Word × S)
  fail_with message value st = do st1 ← fdputs calls 1 message st; some (value, st1)

  -- The loop of main of ece391cat, with fuel.
  unfoldable pub cat_loop : ℕ → Word → Memory → S → Option (Word × S)
  cat_loop zero fd buf st = none
  cat_loop (suc f) fd buf st = do
    r ← calls.read_call fd buf 1024 st
    if r.0 == 0
        then some (0, r.2)
        else if r.0 == minus_one
        then fail_with read_failed_message 3 (r.2)
        else (do
          w ← calls.write_call 1 (r.1) (r.0) (r.2)
          if w.0 == minus_one then some (3, w.1) else cat_loop f fd (r.1) (w.1))

  -- main of ece391cat, with what its buffer holds at first
  unfoldable pub cat_main : ℕ → Memory → S → Option (Word × S)
  unfolding cat_loop
  cat_main fuel buf st = do
    a ← calls.getargs_call buf 1024 st
    if not (a.0 == 0) then fail_with args_message 3 (a.2) else (do
      o ← calls.open_call (slice (a.1) 0 1024) (a.2)
      if o.0 == minus_one
          then fail_with not_found_message 2 (o.1)
          else cat_loop fuel (o.0) (a.1) (o.1))

  -- main of ece391hello
  unfoldable pub hello_main : Memory → S → Option (Word × S)
  hello_main buf st = do
    st1 ← fdputs calls 1 name_question st
    r ← calls.read_call 0 buf 1023 st1
    if r.0 == minus_one then fail_with no_name_message 3 (r.2) else (do
      st2 ← fdputs calls 1 hello_message (r.2)
      st3 ← fdputs calls 1 (slice (update (r.1) (r.0) 0) 0 1024) st2
      some (0, st3))
