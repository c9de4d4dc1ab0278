-- ===== src/Programs/Cat/Kernel.antt =====
-- syscalls/ece391cat.c on the modelled kernel: the calls of an open file are a stream.
use fuzzy_os.Base.{
  List, Memory, Option, Ports, Word, [], arith, false, length, refl, slt, some, ℕ, ◌+◌, ◌<◌, ◌==◌,
  ◌||◌, ◌≡◌, ◌≢◌, ◌≤◌,
}
use fuzzy_os.Console.{Console}
use fuzzy_os.FileSystem.{Dentry}
use fuzzy_os.Files.{file_read}
use fuzzy_os.Kernel.{Kernel, entry, file_fops, set_entry, terminal_fops}
use fuzzy_os.Programs.Calls.{kernel_calls}
use fuzzy_os.Programs.Cat.{cat_loop}
use fuzzy_os.Programs.Cat.Files.{
  FileLeft, FileLeft-drop, FileLeft-prints, KernelWrites, Writes-trans, file_read_at_end,
  file_read_part, nothing, terminal_write-OnlyPrints, write_more,
}
use fuzzy_os.Programs.Cat.Streams.{IsStream, cat_loop-Shown}
use fuzzy_os.Syscalls.{Wait, read_kind, sys_read, sys_write, write_kind}
use fuzzy_os.TerminalDriver.{terminal_write}

module _ (stack : Memory) (junk : Dentry) (read : Ports → ℕ → ℕ) (table : Word)
    (waiting : Kernel → Wait) (linkage : Word → Kernel → Option (Word × Kernel)) where
  -- A read of a file descriptor goes to file_read.
  read_call-file :
      (fd : Word) (buf buf' : Memory) (n : Word) (k k' : Kernel)
      → 2 ≤ fd
      → fd < 8
      → (entry k fd).fops ≡ file_fops
      → (entry k fd).flags ≢ 0
      → file_read fd (some buf) 1024 k ≡ (n, some buf', k')
      → (kernel_calls stack junk read table waiting linkage).read_call fd buf 1024 k
        ≡ some (n, buf', k')
  unfolding kernel_calls sys_read read_kind
  read_call-file fd buf buf' n k k' lo hi table_is used e =
      let t1 : slt fd 0 || slt 7 fd || fd == 1 ≡ false = ground arith in
      let t2 : (entry k fd).flags == 0 ≡ false = ground (arith, used) in
      rw (t1, t2, table_is) (rw e refl)

  -- A write of descriptor 1 goes to the terminal, and says how much it has written.
  pub write_call-terminal :
      (buf : Memory) (n : Word) (k : Kernel)
      → (entry k 1).fops ≡ terminal_fops
      → (entry k 1).flags ≢ 0
      → n ≤ 1024
      → (kernel_calls stack junk read table waiting linkage).write_call 1 buf n k
        ≡ some (
          n,
          record k { keys = record (k.keys) { con = (terminal_write (some buf) n k.keys.con).1 } },
        )
  unfolding kernel_calls sys_write write_kind terminal_write
  write_call-terminal buf n k table_is used l =
      let t2 : (entry k 1).flags == 0 ≡ false = ground (arith, used) in
      let t3 : slt n 0 ≡ false = ground arith in rw (t2, table_is) (rw t3 refl)

  pub file-IsStream :
      (fd : Word)
      → 2 ≤ fd
      → fd < 8
      → IsStream (kernel_calls stack junk read table waiting linkage) fd (FileLeft fd) KernelWrites
  file-IsStream fd lo hi = record {
    at_end = λ buf k l. (
      buf,
      set_entry fd (record (entry k fd) { file_position = (entry k fd).file_position + 0 }) k,
      read_call-file fd buf buf 0 k _ lo hi l.table l.used (file_read_at_end fd buf k l),
      nothing k.keys.con,
    );
    part = λ t buf k l pos.
        (let (n, buf', m, e, same) = file_read_part fd t buf k l (omega arith) in
          (
            n,
            buf',
            set_entry fd (record (entry k fd) { file_position = (entry k fd).file_position + n }) k,
            read_call-file fd buf buf' n k _ lo hi l.table l.used e,
            omega (arith, m),
            omega (arith, m),
            omega (arith, m),
            same,
            FileLeft-drop fd n t k (omega arith) m l,
            nothing k.keys.con,
          ));
    shows = λ t buf n k l small.
        (let c : Console = (terminal_write (some buf) n k.keys.con).1 in
          (
            n,
            record k { keys = record (k.keys) { con = c } },
            write_call-terminal buf n k l.screen l.screen_used small,
            ground arith,
            FileLeft-prints fd t k c (terminal_write-OnlyPrints buf n k.keys.con) l,
            write_more [] buf n k.keys.con k.keys.con (nothing k.keys.con),
          ));
    joins = λ a b k l m v w. Writes-trans a b k.keys.con l.keys.con m.keys.con v w;
  }

  -- The loop of cat on a file that is open on a descriptor from 2 to 7, with descriptor 1 the
  -- terminal: it comes to its end and returns 0, and has written to the terminal exactly the bytes
  -- of the file from its position on, in order.
  pub cat_loop-file :
      (fuel : ℕ) (fd : Word) (t : List ℕ) (buf : Memory) (k : Kernel)
      → 2 ≤ fd
      → fd < 8
      → FileLeft fd t k
      → length t < fuel
      → (k' : Kernel) × (cat_loop (kernel_calls stack junk read table waiting linkage) fuel fd buf k
          ≡ some (0, k'))
        × KernelWrites t k k'
  cat_loop-file fuel fd t buf k lo hi l h =
      cat_loop-Shown (kernel_calls stack junk read table waiting linkage) fd (FileLeft fd)
        KernelWrites (file-IsStream fd lo hi) fuel t buf k l h
