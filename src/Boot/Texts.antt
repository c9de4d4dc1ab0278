-- ===== src/Boot/Texts.antt =====
-- The formats that entry of student-distrib/kernel.c prints, as the pieces that they consist of.
use fuzzy_os.Base.{List, [], ◌∷◌}
use fuzzy_os.Console.Rendering.{Piece, hex, literal, padded_hex, signed, text, unsigned}

-- "Invalid magic number: 0x%#x\n"
abbrev pub magic_format : List Piece
magic_format =
    literal 73
    ∷ literal 110
    ∷ literal 118
    ∷ literal 97
    ∷ literal 108
    ∷ literal 105
    ∷ literal 100
    ∷ literal 32
    ∷ literal 109
    ∷ literal 97
    ∷ literal 103
    ∷ literal 105
    ∷ literal 99
    ∷ literal 32
    ∷ literal 110
    ∷ literal 117
    ∷ literal 109
    ∷ literal 98
    ∷ literal 101
    ∷ literal 114
    ∷ literal 58
    ∷ literal 32
    ∷ literal 48
    ∷ literal 120
    ∷ padded_hex
    ∷ literal 10
    ∷ []

-- "flags = 0x%#x\n"
abbrev pub flags_format : List Piece
flags_format =
    literal 102
    ∷ literal 108
    ∷ literal 97
    ∷ literal 103
    ∷ literal 115
    ∷ literal 32
    ∷ literal 61
    ∷ literal 32
    ∷ literal 48
    ∷ literal 120
    ∷ padded_hex
    ∷ literal 10
    ∷ []

-- "mem_lower = %uKB, mem_upper = %uKB\n"
abbrev pub mem_format : List Piece
mem_format =
    literal 109
    ∷ literal 101
    ∷ literal 109
    ∷ literal 95
    ∷ literal 108
    ∷ literal 111
    ∷ literal 119
    ∷ literal 101
    ∷ literal 114
    ∷ literal 32
    ∷ literal 61
    ∷ literal 32
    ∷ unsigned
    ∷ literal 75
    ∷ literal 66
    ∷ literal 44
    ∷ literal 32
    ∷ literal 109
    ∷ literal 101
    ∷ literal 109
    ∷ literal 95
    ∷ literal 117
    ∷ literal 112
    ∷ literal 112
    ∷ literal 101
    ∷ literal 114
    ∷ literal 32
    ∷ literal 61
    ∷ literal 32
    ∷ unsigned
    ∷ literal 75
    ∷ literal 66
    ∷ literal 10
    ∷ []

-- "boot_device = 0x%#x\n"
abbrev pub boot_device_format : List Piece
boot_device_format =
    literal 98
    ∷ literal 111
    ∷ literal 111
    ∷ literal 116
    ∷ literal 95
    ∷ literal 100
    ∷ literal 101
    ∷ literal 118
    ∷ literal 105
    ∷ literal 99
    ∷ literal 101
    ∷ literal 32
    ∷ literal 61
    ∷ literal 32
    ∷ literal 48
    ∷ literal 120
    ∷ padded_hex
    ∷ literal 10
    ∷ []

-- "cmdline = %s\n"
abbrev pub cmdline_format : List Piece
cmdline_format =
    literal 99
    ∷ literal 109
    ∷ literal 100
    ∷ literal 108
    ∷ literal 105
    ∷ literal 110
    ∷ literal 101
    ∷ literal 32
    ∷ literal 61
    ∷ literal 32
    ∷ text
    ∷ literal 10
    ∷ []

-- "Module %d loaded at address: 0x%#x\n"
abbrev pub mod_start_format : List Piece
mod_start_format =
    literal 77
    ∷ literal 111
    ∷ literal 100
    ∷ literal 117
    ∷ literal 108
    ∷ literal 101
    ∷ literal 32
    ∷ signed
    ∷ literal 32
    ∷ literal 108
    ∷ literal 111
    ∷ literal 97
    ∷ literal 100
    ∷ literal 101
    ∷ literal 100
    ∷ literal 32
    ∷ literal 97
    ∷ literal 116
    ∷ literal 32
    ∷ literal 97
    ∷ literal 100
    ∷ literal 100
    ∷ literal 114
    ∷ literal 101
    ∷ literal 115
    ∷ literal 115
    ∷ literal 58
    ∷ literal 32
    ∷ literal 48
    ∷ literal 120
    ∷ padded_hex
    ∷ literal 10
    ∷ []

-- "Module %d ends at address: 0x%#x\n"
abbrev pub mod_end_format : List Piece
mod_end_format =
    literal 77
    ∷ literal 111
    ∷ literal 100
    ∷ literal 117
    ∷ literal 108
    ∷ literal 101
    ∷ literal 32
    ∷ signed
    ∷ literal 32
    ∷ literal 101
    ∷ literal 110
    ∷ literal 100
    ∷ literal 115
    ∷ literal 32
    ∷ literal 97
    ∷ literal 116
    ∷ literal 32
    ∷ literal 97
    ∷ literal 100
    ∷ literal 100
    ∷ literal 114
    ∷ literal 101
    ∷ literal 115
    ∷ literal 115
    ∷ literal 58
    ∷ literal 32
    ∷ literal 48
    ∷ literal 120
    ∷ padded_hex
    ∷ literal 10
    ∷ []

-- "First few bytes of module:\n"
abbrev pub first_bytes_format : List Piece
first_bytes_format =
    literal 70
    ∷ literal 105
    ∷ literal 114
    ∷ literal 115
    ∷ literal 116
    ∷ literal 32
    ∷ literal 102
    ∷ literal 101
    ∷ literal 119
    ∷ literal 32
    ∷ literal 98
    ∷ literal 121
    ∷ literal 116
    ∷ literal 101
    ∷ literal 115
    ∷ literal 32
    ∷ literal 111
    ∷ literal 102
    ∷ literal 32
    ∷ literal 109
    ∷ literal 111
    ∷ literal 100
    ∷ literal 117
    ∷ literal 108
    ∷ literal 101
    ∷ literal 58
    ∷ literal 10
    ∷ []

-- "0x%x "
abbrev pub byte_format : List Piece
byte_format = literal 48 ∷ literal 120 ∷ hex ∷ literal 32 ∷ []

-- "\n"
abbrev pub newline_format : List Piece
newline_format = literal 10 ∷ []

-- "Both bits 4 and 5 are set.\n"
abbrev pub both_bits_format : List Piece
both_bits_format =
    literal 66
    ∷ literal 111
    ∷ literal 116
    ∷ literal 104
    ∷ literal 32
    ∷ literal 98
    ∷ literal 105
    ∷ literal 116
    ∷ literal 115
    ∷ literal 32
    ∷ literal 52
    ∷ literal 32
    ∷ literal 97
    ∷ literal 110
    ∷ literal 100
    ∷ literal 32
    ∷ literal 53
    ∷ literal 32
    ∷ literal 97
    ∷ literal 114
    ∷ literal 101
    ∷ literal 32
    ∷ literal 115
    ∷ literal 101
    ∷ literal 116
    ∷ literal 46
    ∷ literal 10
    ∷ []

-- "elf_sec: num = %u, size = 0x%#x, addr = 0x%#x, shndx = 0x%#x\n"
abbrev pub elf_format : List Piece
elf_format =
    literal 101
    ∷ literal 108
    ∷ literal 102
    ∷ literal 95
    ∷ literal 115
    ∷ literal 101
    ∷ literal 99
    ∷ literal 58
    ∷ literal 32
    ∷ literal 110
    ∷ literal 117
    ∷ literal 109
    ∷ literal 32
    ∷ literal 61
    ∷ literal 32
    ∷ unsigned
    ∷ literal 44
    ∷ literal 32
    ∷ literal 115
    ∷ literal 105
    ∷ literal 122
    ∷ literal 101
    ∷ literal 32
    ∷ literal 61
    ∷ literal 32
    ∷ literal 48
    ∷ literal 120
    ∷ padded_hex
    ∷ literal 44
    ∷ literal 32
    ∷ literal 97
    ∷ literal 100
    ∷ literal 100
    ∷ literal 114
    ∷ literal 32
    ∷ literal 61
    ∷ literal 32
    ∷ literal 48
    ∷ literal 120
    ∷ padded_hex
    ∷ literal 44
    ∷ literal 32
    ∷ literal 115
    ∷ literal 104
    ∷ literal 110
    ∷ literal 100
    ∷ literal 120
    ∷ literal 32
    ∷ literal 61
    ∷ literal 32
    ∷ literal 48
    ∷ literal 120
    ∷ padded_hex
    ∷ literal 10
    ∷ []

-- "mmap_addr = 0x%#x, mmap_length = 0x%x\n"
abbrev pub mmap_format : List Piece
mmap_format =
    literal 109
    ∷ literal 109
    ∷ literal 97
    ∷ literal 112
    ∷ literal 95
    ∷ literal 97
    ∷ literal 100
    ∷ literal 100
    ∷ literal 114
    ∷ literal 32
    ∷ literal 61
    ∷ literal 32
    ∷ literal 48
    ∷ literal 120
    ∷ padded_hex
    ∷ literal 44
    ∷ literal 32
    ∷ literal 109
    ∷ literal 109
    ∷ literal 97
    ∷ literal 112
    ∷ literal 95
    ∷ literal 108
    ∷ literal 101
    ∷ literal 110
    ∷ literal 103
    ∷ literal 116
    ∷ literal 104
    ∷ literal 32
    ∷ literal 61
    ∷ literal 32
    ∷ literal 48
    ∷ literal 120
    ∷ hex
    ∷ literal 10
    ∷ []

-- "    size = 0x%x, base_addr = 0x%#x%#x\n    type = 0x%x,  length    = 0x%#x%#x\n"
abbrev pub mmap_entry_format : List Piece
mmap_entry_format =
    literal 32
    ∷ literal 32
    ∷ literal 32
    ∷ literal 32
    ∷ literal 115
    ∷ literal 105
    ∷ literal 122
    ∷ literal 101
    ∷ literal 32
    ∷ literal 61
    ∷ literal 32
    ∷ literal 48
    ∷ literal 120
    ∷ hex
    ∷ literal 44
    ∷ literal 32
    ∷ literal 98
    ∷ literal 97
    ∷ literal 115
    ∷ literal 101
    ∷ literal 95
    ∷ literal 97
    ∷ literal 100
    ∷ literal 100
    ∷ literal 114
    ∷ literal 32
    ∷ literal 61
    ∷ literal 32
    ∷ literal 48
    ∷ literal 120
    ∷ padded_hex
    ∷ padded_hex
    ∷ literal 10
    ∷ literal 32
    ∷ literal 32
    ∷ literal 32
    ∷ literal 32
    ∷ literal 116
    ∷ literal 121
    ∷ literal 112
    ∷ literal 101
    ∷ literal 32
    ∷ literal 61
    ∷ literal 32
    ∷ literal 48
    ∷ literal 120
    ∷ hex
    ∷ literal 44
    ∷ literal 32
    ∷ literal 32
    ∷ literal 108
    ∷ literal 101
    ∷ literal 110
    ∷ literal 103
    ∷ literal 116
    ∷ literal 104
    ∷ literal 32
    ∷ literal 32
    ∷ literal 32
    ∷ literal 32
    ∷ literal 61
    ∷ literal 32
    ∷ literal 48
    ∷ literal 120
    ∷ padded_hex
    ∷ padded_hex
    ∷ literal 10
    ∷ []
