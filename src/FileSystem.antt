-- ===== src/FileSystem.antt =====
-- student-distrib/filesys.c, the reading of the file-system image: the boot block, the directory
-- entries, the inodes and the data blocks. The image is memory from `boot_block_ptr` on, so that
-- every address is an offset into it; pointer arithmetic is modulo 2 ^ 32. The open files and
-- directories of a process are in Files.
pub mod Lookup
mod Steps
pub mod Start
pub mod Within
pub mod Across
use fuzzy_os.Base.{
  List, Memory, Option, Word, add32, bytes, false, if◌then◌else◌, leb, length, load32, ltb,
  minus_one, none, sle, slice, some, suc, true, update, zero, ℕ, ◌%◌, ◌*◌, ◌+◌, ◌/◌, ◌==◌, ◌^◌,
  ◌||◌,
}
use fuzzy_os.Clib.Strings.{strcpy, strlen, strncmp, strncpy}

-- `dentry_t`, whose type and inode number are read as single bytes
pub record Dentry : Type 0 where
  pub file_name : Memory
  pub file_type : ℕ
  pub inode_num : ℕ

abbrev pub block_size : ℕ
block_size = 4096

abbrev pub max_dentries : ℕ
max_dentries = 63

abbrev pub num_dentries_scanned : ℕ
num_dentries_scanned = 64

abbrev pub max_file_name_len : ℕ
max_file_name_len = 32

abbrev pub max_data_blocks : ℕ
max_data_blocks = 1023

-- `boot_block_ptr->numDentries` and `boot_block_ptr->n`
abbrev pub num_dentries : Memory → ℕ
num_dentries img = load32 img 0

abbrev pub num_inodes : Memory → ℕ
num_inodes img = load32 img 4

-- `&boot_block_ptr->dentries[i]`: 12 bytes of counts and 52 reserved ones come first.
abbrev pub dentry_at : ℕ → ℕ
dentry_at i = 64 + 64 * i

-- `(inode_t*)(boot_block_ptr + inode + 1)`: a `bootBlock_t` is one block of 4096 bytes.
abbrev pub inode_at : ℕ → ℕ
inode_at inode = 4096 * (inode + 1) % 2 ^ 32

-- get_file_len_by_dentry, and the `length` that getFileLen and read_data read
unfoldable pub inode_length : Memory → ℕ → ℕ
inode_length img inode = load32 img (inode_at inode)

-- `cur_node->dataBlocks[b]`
unfoldable pub data_block : Memory → ℕ → ℕ → ℕ
data_block img inode b = load32 img ((inode_at inode + 4 + 4 * b) % 2 ^ 32)

-- init_filesys: `none` is the NULL module; `dataBlock_start` as an offset.
unfoldable pub init_filesys : Option Memory → Word × ℕ
init_filesys none = (minus_one, 0)
init_filesys (some img) = (0, 4096 * (1 + num_inodes img) % 2 ^ 32)

-- the byte `dataBlock_start + block * BLOCK_SIZE + tmp_offset + position`
unfoldable pub data_byte : Memory → ℕ → ℕ → ℕ → ℕ
data_byte img block tmp_offset position =
    img ((4096 * (1 + num_inodes img) + block * 4096 + tmp_offset + position) % 2 ^ 32)

-- The name of entry `i`, as memory from its first byte on.
abbrev pub dentry_name : Memory → ℕ → Memory
dentry_name img i j = img (dentry_at i + j)

-- The buffer `filename` of read_dentry_by_name, on a stack that holds what it holds: strncpy sets
-- the bytes below 32, and the terminator goes to index 33.
unfoldable pub name_buffer : Memory → List ℕ → Memory
name_buffer stack fname =
    update (strncpy stack (bytes fname) max_file_name_len) (max_file_name_len + 1) 0

-- The search loop, from entry `i` with `k` rounds left.
unfoldable pub find_name : Memory → Memory → ℕ → ℕ → Option ℕ
find_name img filename zero i = none
find_name img filename (suc k) i =
    let rest = find_name img filename k (i + 1) in
    if strncmp (dentry_name img i) filename max_file_name_len == 0 then some i else rest

-- The whole loop, `for (i=0; i < NUM_DENTRIES; i++)`.
unfoldable pub find_dentry : Memory → Memory → Option ℕ
unfolding find_name
find_dentry img filename = find_name img filename num_dentries_scanned 0

-- What a hit writes to `*dentry`; the name's bytes from 32 on lie under the other two fields.
unfoldable pub fill_dentry : Memory → Memory → ℕ → Dentry → Dentry
fill_dentry img filename i dentry = record {
  file_name = strcpy dentry.file_name (slice filename 0 34);
  file_type = img (dentry_at i + 32);
  inode_num = img (dentry_at i + 36);
}

-- read_dentry_by_name; `none` is a NULL pointer.
unfoldable pub read_dentry_by_name :
    Memory → Memory → Option (List ℕ) → Option Dentry → Word × Option Dentry
read_dentry_by_name img stack none dentry = (minus_one, dentry)
read_dentry_by_name img stack (some fname) none = (minus_one, none)
read_dentry_by_name img stack (some fname) (some dentry) =
    if strlen fname == 0 || ltb max_file_name_len (strlen fname)
    then (minus_one, some dentry)
    else elim (find_dentry img (name_buffer stack fname)) [
      | none ↦ (minus_one, some dentry)
      | some i ↦ (0, some (fill_dentry img (name_buffer stack fname) i dentry))
    ]

-- read_dentry_by_index; the name is copied whole, with no terminator.
unfoldable pub read_dentry_by_index : Memory → ℕ → Option Dentry → Word × Option Dentry
read_dentry_by_index img index none = (minus_one, none)
read_dentry_by_index img index (some dentry) =
    if leb max_dentries index then (minus_one, some dentry) else (
      0,
      some (record {
        file_name =
            λ j. if ltb j max_file_name_len then dentry_name img index j else dentry.file_name j;
        file_type = img (dentry_at index + 32);
        inode_num = img (dentry_at index + 36);
      }),
    )

-- The local variables of read_data that say where the next byte is.
pub record Cursor : Type 0 where
  pub position : ℕ
  pub tmp_offset : ℕ
  pub block_idx : ℕ
  pub block : ℕ

-- What they hold when the loop starts. `tmp_offset` is an `int`.
unfoldable pub start_cursor : Memory → ℕ → ℕ → Cursor
start_cursor img inode offset =
    if sle block_size offset
    then record {
      position = 0;
      tmp_offset = offset % block_size;
      block_idx = 0;
      block = data_block img inode (offset / block_size);
    }
    else record { position = 0; tmp_offset = offset; block_idx = 0; block = data_block img inode 0 }

-- The step to the next block; `none` is the return of -1 at a bad block number.
unfoldable pub next_block : Memory → ℕ → Cursor → Option Cursor
next_block img inode c =
    if leb block_size (add32 c.position c.tmp_offset)
    then (let b = c.block_idx + 1 in
        if data_block img inode b == 0 || ltb max_data_blocks b
        then none
        else some (record {
          position = 0;
          tmp_offset = 0;
          block_idx = b;
          block = data_block img inode b;
        }))
    else some c

-- The loop of read_data with `k = length - i` rounds left; the result is the value returned and
-- the buffer.
unfoldable pub read_loop : Memory → ℕ → ℕ → ℕ → ℕ → ℕ → Cursor → Memory → Word × Memory
unfolding next_block
read_loop img inode offset zero i bytes_read c buf = (bytes_read, buf)
read_loop img inode offset (suc k) i bytes_read c buf =
    elim (leb (inode_length img inode) bytes_read
      || leb (inode_length img inode) (add32 offset c.position)) [
        | true ↦ (bytes_read, buf)
        | false ↦ elim (next_block img inode c) [
          | none ↦ (minus_one, buf)
          | some c' ↦
              read_loop img inode offset k (i + 1) (bytes_read + 1)
                (record c' { position = c'.position + 1 })
                (update buf i (data_byte img c'.block c'.tmp_offset c'.position))
        ]
      ]

-- read_data; `none` is a NULL buffer.
unfoldable pub read_data : Memory → ℕ → ℕ → Option Memory → ℕ → Word × Option Memory
unfolding read_loop start_cursor
read_data img inode offset none length = (minus_one, none)
read_data img inode offset (some buf) length =
    if ltb max_dentries inode
    then (minus_one, some buf)
    else (let (n, buf') =
          read_loop img inode offset length 0 0 (start_cursor img inode offset) buf in
        (n, some buf'))
