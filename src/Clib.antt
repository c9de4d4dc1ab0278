-- ===== src/Clib.antt =====
-- student-distrib/lib.c, the string and memory routines. `Strings` has strlen, strncmp, strcpy,
-- strncpy, strrev and itoa; `Blocks` has memset, memcpy and memmove as their inline assembly
-- runs; `Texts` and `Radix` say what a text in memory and a numeral are; the other modules are
-- about what the routines do.
pub mod Strings
pub mod Blocks
pub mod Compare
pub mod Copy
pub mod Numerals
pub mod Texts
pub mod Radix
pub mod Printing
pub mod Moves
