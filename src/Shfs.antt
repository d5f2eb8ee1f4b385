-- ===== src/Shfs.antt =====
-- filesystems/shfs: the file system on a remote machine, whose operations are commands to a shell.
pub mod Convert
pub mod Quote
pub mod Word
pub mod Clock
pub mod Command
pub mod Proc
pub mod Ops
pub mod Sent
pub mod Calendar
