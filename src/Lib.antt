-- ===== src/Lib.antt =====
-- FuzzyOS: a model of the kernel in student-distrib and what holds of it.
--
-- The kernel runs up to six processes on three text terminals. A timer interrupt moves execution
-- from one terminal to the next; a keyboard interrupt edits the line of the terminal on display;
-- system calls open, read, write and close files, directories, the clock and the terminal, start
-- programs and end them. Every part keeps its state in globals, which are fields of records here,
-- and every function is one from the state to the state.
--
--   Base            words of 32 bits, Boolean tests, memory as a function, port writes as a list
--   Clib            student-distrib/lib.c: strings and blocks (strlen ... memmove, memset, itoa);
--                   Clib.Radix is what a numeral stands for
--   Console         student-distrib/lib.c: putc, terminal_putc, deletec, scroll_down, the cursor;
--                   Console.Printf is printf, Console.Rendering what a format stands for
--   FileSystem      student-distrib/filesys.c: the image, read_dentry_by_name, read_data
--   Pic             student-distrib/i8259.c, init_pit of pit.c: masks and ends of interrupt
--   Display         change_display_terminal of student-distrib/system_call.c
--   Keyboard        student-distrib/keyboard.c: get_keyboard_input, branch by branch
--   TerminalDriver  student-distrib/Terminal.c: terminal_read and terminal_write
--   Paging          student-distrib/paging.c; Paging.Walk is the translation of the processor
--   Rtc             student-distrib/rtc.c: the rates and the virtual clock of a terminal
--   Kernel          the state that system calls share, and the addresses of blocks and frames
--   Files           file_open ... dir_read of student-distrib/filesys.c, RTC_open
--   Syscalls        open, close, read, write, getargs and vidmap of student-distrib/system_call.c
--   Process         execute and halt of student-distrib/system_call.c
--   Scheduler       student-distrib/scheduler.c, and pit_irq of student-distrib/pit.c
--   Interrupts      student-distrib/create_handler.c: init_idt, handler, page_fault_handler, irq_handler
--   Boot            entry of student-distrib/kernel.c, over memory as the boot loader leaves it
--   Programs        syscalls/: the library of the programs, cat, hello, grep, the tests
--                   of wrong calls and pingpong;
--                   Programs.Calls is the interface of system calls, which the kernel's fill
--   Tests           the theorems at concrete states
--
-- A parameter stands for what the C code does not fix: the bytes that inb gives (`read`), the address
-- of the page table (`table`), and what a call finds in its uninitialised locals (`stack`, `junk`,
-- the fields of `Frame`). Where the linker puts a function or a table is a parameter too (`address`,
-- `Linked`). A NULL pointer is `none`. In Keyboard and TerminalDriver `none` is an access outside an
-- array that decides what is done; backspace on an empty line reads the byte before keyboard_buf, which
-- is a field of the state, and a release of a key reads behind the table of keys a byte on which
-- nothing depends. In Rtc and Syscalls `none` is a division by zero or a call that waits for ever, in
-- printf a format that is read past its NUL. The jumps from and to user mode are the constructors of
-- `Outcome`; the ways in which entry ends, a page fault among them, are those of `Ending`.
--
-- Fuel: the digit loop of itoa has 32 rounds, as a 32-bit number has at most 32 digits; strrev has as
-- many rounds as the text has characters; keyboard_puts may have any number, as it stops in its first
-- round; the loop of entry over the memory map has as many rounds as it is given, which are enough when
-- they are a quarter of the map's length; that of ece391cat has rounds enough when they are more than
-- the bytes that are left; the lines of a part of ece391grep have 1026 rounds, as each line has at least
-- one of at most 1025 places; the loops of ece391grep over the files and their parts have as many rounds
-- as they are given, and ece391pingpong, which never ends, is its first rounds; every other loop counts
-- down by itself.
--
-- Not modelled: the assembly (boot.S, handler.S, systemcall.S, x86_desc.S), the kernel's tests, and
-- fish, an animation with an emulation of the system calls under Linux. Inside execute the two buffers
-- of the parser are as long as is needed; Process.parse_in_bounds is the parser with their 128 bytes.
-- What a file of more than 0x3B8000 bytes overwrites behind the page of its process, and accesses to the
-- file system's image behind the kernel's 4 MB, are not followed.
pub mod Base
pub mod Clib
pub mod FileSystem
pub mod Console
pub mod Pic
pub mod Display
pub mod Keyboard
pub mod TerminalDriver
pub mod Paging
pub mod Rtc
pub mod Kernel
pub mod Files
pub mod Syscalls
pub mod Process
pub mod Interrupts
pub mod Boot
pub mod Programs
pub mod Scheduler
pub mod Tests
