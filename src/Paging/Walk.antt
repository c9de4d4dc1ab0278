-- ===== src/Paging/Walk.antt =====
-- The address translation of the processor, as its manual describes it for a directory whose page
-- tables are all the one at `table`: the reference for the mappings of student-distrib/paging.c.
use fuzzy_os.Base.{
  Bool, Option, Word, bit, if◌then◌else◌, none, some, ◌%◌, ◌&&◌, ◌*◌, ◌+◌, ◌/◌, ◌==◌, ◌^◌,
}
use fuzzy_os.Paging.{Paging}

-- the bits `P` and `PS`, and the base addresses of a 4 MB page and of a 4 KB page or table
abbrev pub is_present : Word → Bool
is_present e = bit e 0 == 1

abbrev pub is_large : Word → Bool
is_large e = bit e 7 == 1

abbrev pub is_user : Word → Bool
is_user e = bit e 2 == 1

abbrev pub large_base : Word → Word
large_base e = e / 2 ^ 22 * 2 ^ 22

abbrev pub small_base : Word → Word
small_base e = e / 2 ^ 12 * 2 ^ 12

-- A physical address and whether user programs may use it; `none` is a page fault.
abbrev pub walk_table : Paging → Bool → Word → Option (Word × Bool)
walk_table p user va =
    let e : Word = p.video_page_table (va / 2 ^ 12 % 1024) in
    if is_present e then some (small_base e + va % 2 ^ 12, user && is_user e) else none

-- Directories that point to another table than the one that is kept translate nothing here.
unfoldable pub translate : Word → Paging → Word → Option (Word × Bool)
translate table p va =
    let e : Word = p.page_directory (va / 2 ^ 22 % 1024) in
    if is_present e
    then (if is_large e
        then some (large_base e + va % 2 ^ 22, is_user e)
        else if small_base e == table
        then walk_table p (is_user e) va
        else none)
    else none
