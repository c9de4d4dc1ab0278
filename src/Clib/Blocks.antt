-- ===== src/Clib/Blocks.antt =====
-- memset, memset_word, memset_dword, memcpy and memmove of student-distrib/lib.c, step by step as
-- their inline assembly runs. The registers edi, esi and ecx are the arguments; addresses do not
-- wrap, since a block lies inside the 32-bit space.
use fuzzy_os.Base.{Memory, if◌then◌else◌, ltb, suc, update, zero, ℕ, ◌%◌, ◌*◌, ◌+◌, ◌/◌, ◌==◌}

-- `movb (%esi), %al; movb %al, (%edi)` with both pointers going up, `n` times
unfoldable pub copy_bytes : Memory → ℕ → ℕ → ℕ → Memory
copy_bytes m edi esi zero = m
copy_bytes m edi esi (suc n) = copy_bytes (update m edi (m esi)) (edi + 1) (esi + 1) n

-- one `movsl`: four bytes are read, then four are written
abbrev pub write4 : Memory → ℕ → ℕ → ℕ → ℕ → ℕ → Memory
write4 m edi a b c d = update (update (update (update m edi a) (edi + 1) b) (edi + 2) c) (edi + 3) d

-- `rep movsl`
unfoldable pub copy_dwords : Memory → ℕ → ℕ → ℕ → Memory
copy_dwords m edi esi zero = m
copy_dwords m edi esi (suc n) =
    copy_dwords (write4 m edi (m esi) (m (esi + 1)) (m (esi + 2)) (m (esi + 3))) (edi + 4) (esi + 4)
      n

-- From `.memcpy_aligned` on: whole words, then the bytes that are left.
unfoldable pub memcpy_aligned : Memory → ℕ → ℕ → ℕ → Memory
unfolding copy_bytes copy_dwords
memcpy_aligned m edi esi ecx =
    copy_bytes (copy_dwords m edi esi (ecx / 4)) (edi + 4 * (ecx / 4)) (esi + 4 * (ecx / 4))
      (ecx % 4)

-- `.memcpy_top`: single bytes until the destination is aligned
unfoldable pub memcpy : Memory → ℕ → ℕ → ℕ → Memory
unfolding memcpy_aligned
memcpy m edi esi zero = m
memcpy m edi esi (suc ecx) =
    let rest = memcpy (update m edi (m esi)) (edi + 1) (esi + 1) ecx in
    if edi % 4 == 0 then memcpy_aligned m edi esi (suc ecx) else rest

-- `rep movsb` with the direction flag set: the last byte first
unfoldable pub move_down : Memory → ℕ → ℕ → ℕ → Memory
move_down m edi esi zero = m
move_down m edi esi (suc n) = move_down (update m (edi + n) (m (esi + n))) edi esi n

-- `cmp %edi, %esi; jae .memmove_go`
unfoldable pub memmove : Memory → ℕ → ℕ → ℕ → Memory
unfolding copy_bytes move_down
memmove m edi esi ecx = if ltb esi edi then move_down m edi esi ecx else copy_bytes m edi esi ecx

-- `movb %al, (%edi)`, `n` times
unfoldable pub fill_bytes : Memory → ℕ → ℕ → ℕ → Memory
fill_bytes m edi al zero = m
fill_bytes m edi al (suc n) = fill_bytes (update m edi al) (edi + 1) al n

-- `rep stosl` of a word of four bytes
unfoldable pub fill_dwords : Memory → ℕ → ℕ → ℕ → ℕ → ℕ → ℕ → Memory
fill_dwords m edi a b c d zero = m
fill_dwords m edi a b c d (suc n) = fill_dwords (write4 m edi a b c d) (edi + 4) a b c d n

unfoldable pub memset_aligned : Memory → ℕ → ℕ → ℕ → Memory
unfolding fill_bytes fill_dwords
memset_aligned m edi al ecx =
    fill_bytes (fill_dwords m edi al al al al (ecx / 4)) (edi + 4 * (ecx / 4)) al (ecx % 4)

-- `.memset_top`
unfoldable pub memset_from : Memory → ℕ → ℕ → ℕ → Memory
unfolding memset_aligned
memset_from m edi al zero = m
memset_from m edi al (suc ecx) =
    let rest = memset_from (update m edi al) (edi + 1) al ecx in
    if edi % 4 == 0 then memset_aligned m edi al (suc ecx) else rest

-- `c &= 0xFF` comes first.
unfoldable pub memset : Memory → ℕ → ℕ → ℕ → Memory
unfolding memset_from
memset m s c n = memset_from m s (c % 256) n

-- `rep stosw`: `n` words of 16 bits, the lower half of `c`
unfoldable pub memset_word : Memory → ℕ → ℕ → ℕ → Memory
memset_word m s c zero = m
memset_word m s c (suc n) =
    memset_word (update (update m s (c % 256)) (s + 1) (c / 256 % 256)) (s + 2) c n

-- `rep stosl`: `n` words of 32 bits
unfoldable pub memset_dword : Memory → ℕ → ℕ → ℕ → Memory
unfolding fill_dwords
memset_dword m s c n =
    fill_dwords m s (c % 256) (c / 256 % 256) (c / 65536 % 256) (c / 16777216 % 256) n
