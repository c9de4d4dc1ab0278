-- ===== src/Process/Returning.antt =====
-- A program that is started and halts: execute and halt of student-distrib/system_call.c together.
use fuzzy_os.Base.{
  List, Memory, Word, add32, ap, arith, bytes, false, get_or, load32, ltb, refl, slt, some, true, ℕ,
  ◌+◌, ◌-◌, ◌<◌, ◌==◌, ◌^◌, ◌||◌, ◌∙◌, ◌≡◌, ◌≤◌,
}
use fuzzy_os.Clib.Copy.{has_nul, has_nul-false, strlen_ne_zero, strncpy_lem}
use fuzzy_os.Clib.Strings.{strlen, strncpy}
use fuzzy_os.FileSystem.{Dentry}
use fuzzy_os.FileSystem.Start.{file_byte}
use fuzzy_os.Files.{look_up}
use fuzzy_os.Kernel.{Kernel, current, current_num, frame_address, get_pcb, max_pid}
use fuzzy_os.Paging.Walk.{translate}
use fuzzy_os.Process.{
  Frame, count_up, create_pcb, entry_point, execute, halt, load_program, parse_command,
  parse_in_bounds, resumed, started,
}
use fuzzy_os.Process.Ending.{halt_child_lem}
use fuzzy_os.Process.Starting.{
  IsProgram, entry_point-load32, execute-started, ready, ready-current_num,
}
use fuzzy_os.Syscalls.{getargs}

ready-registers :
    (f : Frame) (args : List ℕ) (inode : ℕ) (k : Kernel)
    → ((get_pcb (ready f args inode k)).parent_esp ≡ f.esp)
      × ((get_pcb (ready f args inode k)).parent_ebp ≡ f.ebp)
unfolding create_pcb load_program count_up
ready-registers f args inode k = (ground arith, ground arith)

-- When a process, one of the first five of its terminal, starts a stored program while fewer than six
-- processes run, and the program halts with a status, with no exception flagged, then the process
-- goes on with this status, on the stack on which it called execute, and both counts and the
-- page at 128 MB are what they were for it before.
pub execute_then_halt :
    (f g : Frame) (table status : Word) (command : List ℕ) (k : Kernel) (file : Dentry)
    → current k < 3
    → current_num k < 5
    → k.pid < 2 ^ 32
    → k.exception_flag ≡ 0
    → slt max_pid (add32 k.pid 1) ≡ false
    → look_up f.stack f.junk k (some (parse_command command).0) ≡ (0, some file)
    → IsProgram k.image file.inode_num
    → (k' : Kernel) × (k'' : Kernel) × (execute f (some command) k
        ≡ started (load32 (λ x. file_byte k.image file.inode_num (24 + x)) 0) k')
      × (halt g table status k' ≡ resumed status f.esp f.ebp k'')
      × (k''.pid ≡ k.pid)
      × (current_num k'' ≡ current_num k)
      × ((x : ℕ)
          → x < 2 ^ 22
          → translate table k''.paging (0x8000000 + x)
            ≡ some (frame_address (current k) (current_num k) + x, true))
unfolding create_pcb load_program count_up
execute_then_halt f g table status command k file t n pw flag room found p =
    let k' : Kernel = ready f (parse_command command).1 file.inode_num k in
    let num : current_num k' ≡ add32 (current_num k) 1 =
      ready-current_num f (parse_command command).1 file.inode_num k in
    let (k'', h, pid, cur, num', esp, pages) =
      halt_child_lem g table status k' t (omega (arith, num)) (omega (arith, num)) in
    let down : current_num k' - 1 ≡ current_num k = omega (arith, num) in
    let regs = ready-registers f (parse_command command).1 file.inode_num k in
    (
      k',
      k'',
      execute-started f command k file room found p
          ∙ ap (λ a. started a k') (entry_point-load32 f k.image file.inode_num p),
      h ∙ rw (flag, regs.0, regs.1) refl,
      pid ∙ omega arith,
      num' ∙ down,
      λ x l. pages x l ∙ rw down refl,
    )

ready-params :
    (f : Frame) (args : List ℕ) (inode : ℕ) (k : Kernel)
    → (get_pcb (ready f args inode k)).params ≡ args
unfolding create_pcb load_program count_up
ready-params f args inode k = ground arith

parse_in_bounds-parse_command :
    (command : List ℕ) (r : List ℕ × List ℕ)
    → parse_in_bounds command ≡ some r
    → parse_command command ≡ r
unfolding parse_in_bounds
parse_in_bounds-parse_command command r e = ground (arith, e)

-- A program that has been started with arguments, and whose name and arguments the parser has put
-- inside its two buffers of 128 bytes, gets the arguments from getargs, if its own buffer has room:
-- the call returns 0, and the buffer begins with the text that stood behind the program's name.
pub execute-getargs :
    (f : Frame) (command : List ℕ) (k : Kernel) (file : Dentry) (buf : Memory) (nbytes : Word)
    (name args : List ℕ)
    → slt max_pid (add32 k.pid 1) ≡ false
    → parse_in_bounds command ≡ some (name, args)
    → look_up f.stack f.junk k (some name) ≡ (0, some file)
    → IsProgram k.image file.inode_num
    → 0 < strlen args
    → strlen args ≤ nbytes
    → (k' : Kernel) × (buf' : Memory) × (execute f (some command) k
        ≡ started (load32 (λ x. file_byte k.image file.inode_num (24 + x)) 0) k')
      × (getargs (some buf) nbytes k' ≡ (0, some buf'))
      × ((x : ℕ) → x < strlen args → buf' x ≡ get_or args x 0)
unfolding getargs
execute-getargs f command k file buf nbytes name args room parsed found p pos fits =
    let parts : parse_command command ≡ (name, args) =
      parse_in_bounds-parse_command command (name, args) parsed in
    let found' : look_up f.stack f.junk k (some (parse_command command).0) ≡ (0, some file) =
      ap (λ c. look_up f.stack f.junk k (some c.0)) parts ∙ found in
    let k' : Kernel = ready f args file.inode_num k in
    let same : (get_pcb k').params ≡ args = ready-params f args file.inode_num k in
    let guard : (strlen args == 0 || ltb nbytes (strlen args)) ≡ false = ground arith in
    (
      k',
      strncpy buf (bytes args) nbytes,
      execute-started f command k file room found' p
          ∙ ap (λ c. started (entry_point f k.image file.inode_num) (ready f c.1 file.inode_num k))
              parts
          ∙ ap (λ a. started a k') (entry_point-load32 f k.image file.inode_num p),
      rw (same, guard) refl,
      λ x l.
          (strncpy_lem buf (bytes args) nbytes x).0 (omega arith)
          ∙ (let free : has_nul (bytes args) 0 x ≡ false =
                has_nul-false (bytes args) 0 x (λ j h. ground (arith, strlen_ne_zero args j)) in
              rw free refl),
    )
