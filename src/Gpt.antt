-- ===== src/Gpt.antt =====
-- gpt/gpt.c: a GUID partition table in a buffer of sectors of 512 bytes.
pub mod Config
pub mod Protect
pub mod Allocate
pub mod Entries
pub mod Generate
pub mod Parse
pub mod Headers
pub mod Roundtrip
pub mod HeaderSum
pub mod Sums
