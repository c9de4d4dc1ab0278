-- ===== src/Tests.antt =====
-- The theorems at concrete states: a machine with three shells and one program on its disk.
pub mod Machine
pub mod Strings
pub mod Disk
pub mod Screens
pub mod Keys
pub mod Processes
pub mod Printing
pub mod Boot
pub mod Programs
pub mod Shells
