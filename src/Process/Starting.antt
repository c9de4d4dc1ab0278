-- ===== src/Process/Starting.antt =====
-- execute of student-distrib/system_call.c, with an executable file: what the program finds.
use mathlib.Core.Path.{subst}
use fuzzy_os.Base.{
  List, Memory, Word, add32, ap, arith, false, if◌then◌else◌, leb, load32, ltb, min, refl, slt,
  some, sub32, sym, true, update_ne, update_self, ℕ, ◌&&◌, ◌+◌, ◌-◌, ◌<◌, ◌^◌, ◌∙◌, ◌≡◌, ◌≢◌, ◌≤◌,
}
use fuzzy_os.FileSystem.{Dentry, inode_length}
use fuzzy_os.FileSystem.Start.{IsStored, file_byte, read_data_from_start}
use fuzzy_os.FileSystem.Within.{available, read_data_within}
use fuzzy_os.Files.{look_up}
use fuzzy_os.Kernel.{
  Kernel, current, current_num, frame_address, max_pid, pcb_address, stack_top, user_mem_size,
}
use fuzzy_os.Kernel.Layout.{user_page}
use fuzzy_os.Paging.Walk.{translate}
use fuzzy_os.Process.{
  Frame, count_up, create_pcb, current_frame, entry_point, execute, execute_file, final,
  image_offset, image_part, is_executable, load_program, parse_command, read_into, started,
  terminal_entry, with_image,
}
use fuzzy_os.Programs.Pingpong.Frames.{frame}

-- The file starts with the magic bytes, and is long enough for its entry point.
pub record IsProgram (img : Memory) (inode : ℕ) : Type 0 where
  pub inode_low : inode ≤ 63
  pub stored : IsStored img inode
  pub header : 28 ≤ inode_length img inode
  pub magic : is_executable (file_byte img inode) ≡ true

read_into_start :
    (img : Memory) (inode n : ℕ) (buf : Memory) (x : ℕ)
    → inode ≤ 63
    → IsStored img inode
    → x < n
    → x < inode_length img inode
    → read_into img inode 0 buf n x ≡ file_byte img inode x
read_into_start img inode n buf x i s l h =
    let (buf', e, b) = read_data_from_start img inode buf n i s in
    let t : ltb x (min n (inode_length img inode)) ≡ true = ground arith in rw e (b x ∙ rw t refl)

read_into_header :
    (img : Memory) (inode : ℕ) (buf : Memory) (x : ℕ)
    → IsProgram img inode
    → x < 4
    → read_into img inode 24 buf 4 x ≡ file_byte img inode (24 + x)
read_into_header img inode buf x p l =
    let (buf', e, b) =
      read_data_within img inode 24 buf 4 p.inode_low (omega arith) (omega arith) in
    let t : ltb x (available img inode 24 4) ≡ true = ground (arith, p.header) in
    rw e (b x ∙ rw t refl)

is_executable_read :
    (img : Memory) (inode : ℕ) (buf : Memory)
    → IsProgram img inode
    → is_executable (read_into img inode 0 buf 4) ≡ true
is_executable_read img inode buf p =
    let at : (x : ℕ) → x < 4 → read_into img inode 0 buf 4 x ≡ file_byte img inode x =
      λ x l. read_into_start img inode 4 buf x p.inode_low p.stored l (omega (arith, p.header)) in
    rw (at 0 (omega arith), at 1 (omega arith), at 2 (omega arith), at 3 (omega arith)) p.magic

-- The kernel when the program in `inode` starts.
abbrev pub ready : Frame → List ℕ → ℕ → Kernel → Kernel
ready f args inode k = create_pcb args f.esp f.ebp (load_program inode (count_up k))

execute_file-started :
    (f : Frame) (command args : List ℕ) (k : Kernel) (file : Dentry)
    → look_up f.stack f.junk k (some command) ≡ (0, some file)
    → IsProgram k.image file.inode_num
    → execute_file f command args k
      ≡ started
          (entry_point f k.image file.inode_num)
          (create_pcb args f.esp f.ebp (load_program file.inode_num k))
unfolding execute_file
execute_file-started f command args k file found p =
    rw (found, execute_file) (rw (found, is_executable_read k.image file.inode_num f.buf p) refl)

pub execute-started :
    (f : Frame) (command : List ℕ) (k : Kernel) (file : Dentry)
    → slt max_pid (add32 k.pid 1) ≡ false
    → look_up f.stack f.junk k (some (parse_command command).0) ≡ (0, some file)
    → IsProgram k.image file.inode_num
    → execute f (some command) k
      ≡ started
          (entry_point f k.image file.inode_num)
          (ready f (parse_command command).1 file.inode_num k)
unfolding execute count_up
execute-started f command k file room found p = rw room (
    execute_file-started f (parse_command command).0 (parse_command command).1 (count_up k) file
      found p)

pub ready-current_num :
    (f : Frame) (args : List ℕ) (inode : ℕ) (k : Kernel)
    → current_num (ready f args inode k) ≡ add32 (current_num k) 1
unfolding create_pcb load_program count_up
ready-current_num f args inode k = ground arith

pub entry_point-load32 :
    (f : Frame) (img : Memory) (inode : ℕ)
    → IsProgram img inode
    → entry_point f img inode ≡ load32 (λ x. file_byte img inode (24 + x)) 0
entry_point-load32 f img inode p =
    let at : (x : ℕ)
        → x < 4
        → read_into img inode 24 f.eip_bytes 4 x ≡ file_byte img inode (24 + x) =
      λ x l. read_into_header img inode f.eip_bytes x p l in
    rw (at 0 (omega arith), at 1 (omega arith), at 2 (omega arith), at 3 (omega arith)) refl

count_up-current_num : (k : Kernel) → current_num (count_up k) ≡ add32 (current_num k) 1
unfolding count_up
count_up-current_num k = ground arith

count_up-frame :
    (k : Kernel) → current_frame (count_up k) ≡ frame_address (current k) (add32 (current_num k) 1)
unfolding count_up
count_up-frame k = ap (frame_address (current k)) (count_up-current_num k)

-- The file stands in the frame.
loaded :
    (k : Kernel) (inode x : ℕ)
    → IsProgram k.image inode
    → x < inode_length k.image inode
    → image_offset + x < user_mem_size
    → (load_program inode k).frames (current_frame k) (image_offset + x) ≡ file_byte k.image inode x
unfolding load_program
loaded k inode x p l inside =
    let frame : Memory = k.frames (current_frame k) in
    let part : Memory = read_into k.image inode 0 (image_part frame) (inode_length k.image inode) in
    let there : part x ≡ file_byte k.image inode x =
      read_into_start k.image inode (inode_length k.image inode) (image_part frame) x p.inode_low
        p.stored l l in
    let at : with_image frame part (image_offset + x) ≡ part x =
      with_image_at frame part x inside in
    ap (λ m. m (image_offset + x)) (update_self k.frames (current_frame k) (with_image frame part))
    ∙ at
    ∙ there
  where
    with_image_at :
        (frame part : Memory) (x : ℕ)
        → image_offset + x < user_mem_size
        → with_image frame part (image_offset + x) ≡ part x
    with_image_at frame part x inside =
        let e : image_offset + x - image_offset ≡ x = omega arith in
        let t : leb image_offset (image_offset + x) && ltb (image_offset + x) user_mem_size ≡ true =
          ground arith in
        rw t (ap part e)

-- execute, of a word that names a stored program that fits into the frame behind 0x48000, when fewer
-- than six processes run, and fewer than six on the terminal: the program starts at the entry point in its bytes 24 to 27; the frame of the new process holds the whole file
-- from 0x48000 on, and the page at 128 MB goes to that frame; the counts go up by one; the kernel
-- stack is the new process's own; and no other frame has changed.
pub execute_lem :
    (f : Frame) (table : Word) (command : List ℕ) (k : Kernel) (file : Dentry)
    → current k < 3
    → add32 (current_num k) 1 < 6
    → slt max_pid (add32 k.pid 1) ≡ false
    → look_up f.stack f.junk k (some (parse_command command).0) ≡ (0, some file)
    → IsProgram k.image file.inode_num
    → image_offset + inode_length k.image file.inode_num ≤ user_mem_size
    → let n : Word = add32 (current_num k) 1 in
      (k' : Kernel) × (execute f (some command) k
        ≡ started (load32 (λ x. file_byte k.image file.inode_num (24 + x)) 0) k')
      × ((x : ℕ)
          → x < inode_length k.image file.inode_num
          → k'.frames (frame_address (current k) n) (image_offset + x)
            ≡ file_byte k.image file.inode_num x)
      × ((x : ℕ)
          → x < 2 ^ 22
          → translate table k'.paging (0x8000000 + x)
            ≡ some (frame_address (current k) n + x, true))
      × (k'.pid ≡ add32 k.pid 1)
      × (current_num k' ≡ n)
      × (k'.esp0 ≡ stack_top (current k) n)
      × ((a : Word) → a ≢ frame_address (current k) n → k'.frames a ≡ k.frames a)
unfolding create_pcb load_program count_up
execute_lem f table command k file t hi room found p small = (
  ready f (parse_command command).1 file.inode_num k,
  rw (execute-started f command k file room found p, entry_point-load32 f k.image file.inode_num p)
      refl,
  λ x l.
      subst
        (λ a.
          (load_program file.inode_num (count_up k)).frames a (image_offset + x)
          ≡ file_byte k.image file.inode_num x)
        (count_up-frame k) (loaded (count_up k) file.inode_num x p l (omega arith)),
  λ x l.
      rw (count_up-frame k)
        (user_page table (current k) (add32 (current_num k) 1) k.paging x t hi l),
  refl,
  ready-current_num f (parse_command command).1 file.inode_num k,
  ap (stack_top (current k)) (count_up-current_num k),
  λ a n.
      update_ne k.frames (current_frame (count_up k)) a _
        (subst (λ b. a ≢ b) (sym (count_up-frame k)) n),
)

pub block_of :
    (f : Frame) (args : List ℕ) (inode : ℕ) (k : Kernel)
    → let address : Word = pcb_address (current k) (add32 (current_num k) 1) in
      let k' : Kernel = ready f args inode k in
      ((k'.pcbs address).params ≡ args)
      × ((k'.pcbs address).pid ≡ add32 k.pid 1)
      × ((k'.pcbs address).parent_pid ≡ sub32 (add32 k.pid 1) 1)
      × ((k'.pcbs address).parent_esp ≡ f.esp)
      × ((k'.pcbs address).parent_ebp ≡ f.ebp)
      × ((j : ℕ)
          → (k'.pcbs address).fda j ≡ (if ltb j 2 then terminal_entry else (k.pcbs address).fda j))
      × ((a : Word) → a ≢ address → k'.pcbs a ≡ k.pcbs a)
unfolding create_pcb load_program count_up
block_of f args inode k = (
  ground arith,
  ground arith,
  ground arith,
  ground arith,
  ground arith,
  λ j. ground arith,
  λ a n. ground arith,
)

-- The block of the new process, and of the others: descriptors 0 and 1 are the terminal, and the
-- rest as they were; the arguments, the numbers and the caller's registers are kept; no other
-- block has changed.
pub execute_block :
    (f : Frame) (command : List ℕ) (k : Kernel) (file : Dentry)
    → slt max_pid (add32 k.pid 1) ≡ false
    → look_up f.stack f.junk k (some (parse_command command).0) ≡ (0, some file)
    → IsProgram k.image file.inode_num
    → let address : Word = pcb_address (current k) (add32 (current_num k) 1) in
      let k' : Kernel = final (execute f (some command) k) in
      ((k'.pcbs address).params ≡ (parse_command command).1)
      × ((k'.pcbs address).pid ≡ add32 k.pid 1)
      × ((k'.pcbs address).parent_pid ≡ sub32 (add32 k.pid 1) 1)
      × ((k'.pcbs address).parent_esp ≡ f.esp)
      × ((k'.pcbs address).parent_ebp ≡ f.ebp)
      × ((j : ℕ)
          → (k'.pcbs address).fda j ≡ (if ltb j 2 then terminal_entry else (k.pcbs address).fda j))
      × ((a : Word) → a ≢ address → k'.pcbs a ≡ k.pcbs a)
execute_block f command k file room found p =
    rw (execute-started f command k file room found p)
      (block_of f (parse_command command).1 file.inode_num k)
