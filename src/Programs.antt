-- ===== src/Programs.antt =====
-- The programs in syscalls that run on the kernel, over the system calls as an interface, and the
-- calls of the modelled kernel as its implementation.
pub mod Calls
pub mod Support
pub mod Strings
pub mod Cat
pub mod Pingpong
pub mod Grep
pub mod Syserr
