-- ===== src/Fat.antt =====
-- gpt/fat.c: the FAT32 volume, from its packed structs to the copying in of a file.
pub mod Layout
pub mod Create
pub mod Super
pub mod Stamp
pub mod Region
pub mod Copyin
