-- ===== src/Programs/Calls.antt =====
-- The system calls as a program sees them (syscalls/ece391syscall.h), and as the kernel of
-- student-distrib/system_call.c gives them. `none` is a call that does not come back.
use fuzzy_os.Base.{List, Memory, Option, Ports, Word, none, some, ℕ, ◌>>=◌}
use fuzzy_os.FileSystem.{Dentry}
use fuzzy_os.Kernel.{Kernel}
use fuzzy_os.Syscalls.{Wait, getargs, sys_close, sys_open, sys_read, sys_write, vidmap}

-- The calls that the programs use, over a state `S` of the machine.
pub record Calls (S : Type 0) : Type 0 where
  pub getargs_call : Memory → Word → S → Option (Word × Memory × S)
  pub open_call : List ℕ → S → Option (Word × S)
  pub close_call : Word → S → Option (Word × S)
  pub read_call : Word → Memory → Word → S → Option (Word × Memory × S)
  pub write_call : Word → Memory → Word → S → Option (Word × S)
  pub vidmap_call : Word → S → Option (Word × S)
  pub numbered_call : Word → S → Option (Word × S)

-- What a call leaves in the buffer that it was given.
abbrev pub buffer_of : Memory → Option Memory → Memory
buffer_of buf none = buf
buffer_of buf (some buf') = buf'

-- The kernel's calls. `waiting` is what the terminal's read waiting for, and `linkage` what the assembly
-- of systemcall.S does with a call number.
unfoldable pub kernel_calls :
    Memory
    → Dentry
    → (Ports → ℕ → ℕ)
    → Word
    → (Kernel → Wait)
    → (Word → Kernel → Option (Word × Kernel))
    → Calls Kernel
kernel_calls stack junk read table waiting linkage = record {
  getargs_call =
      λ buf n k. some ((getargs (some buf) n k).0, buffer_of buf (getargs (some buf) n k).1, k);
  open_call = λ name k. sys_open stack junk read (some name) k;
  close_call = λ fd k. some (sys_close fd k);
  read_call = λ fd buf n k.
      sys_read stack junk (waiting k) fd (some buf) n k
      >>= (λ r. some (r.0, buffer_of buf r.1, r.2));
  write_call = λ fd buf n k. sys_write read fd (some buf) n k;
  vidmap_call = λ p k. some ((vidmap table p k).0, (vidmap table p k).2);
  numbered_call = linkage;
}
