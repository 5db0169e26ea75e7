-- ===== src/Lib.antt =====
-- linux-util: the disk tools under gpt/, which make a bootable image: a FAT32 volume, files in its
-- root directory, and a GUID partition table; the allocator of tlibc/; the URL parser of apt/; the
-- loader of the kernel in bootloader/vmlinux.c; and the zero device.
--
-- The parts of the program and their files.
--   Memory, with Memory/Laws, Memory/Fields and Memory/Frame: the buffers as a function from byte
--     addresses to bytes; memset, memcpy, and the loads and stores of gpt/endian.h by their width.
--     A run of stores to the fields of one packed struct is a list of offset, width and value.
--   Endian: the functions of gpt/endian.h on a machine of either byte order, and that they do what
--     Memory says of them.
--   Fat/Layout: struct BPB, struct FSInfo and struct FATDirEntry of gpt/fat.c.
--   Fat/Create: createFAT32. Its children say which configurations are valid and where the regions
--     lie (Geometry), what each step may change (Bounds), what it leaves (Content), what a reader finds
--     (Volume), and how many entries are free (FreeCount).
--   Fat/Super: struct FAT32Super and the functions on it (FAT32SuperInit, FAT32SuperGetSector,
--     FAT32SuperCluster, FAT32SuperReadEntry, FAT32SuperWriteEntry, FAT32SuperFree). Mounted is the
--     view of a volume that createFAT32 made; it is where creation and copying meet.
--   Fat/Copyin: FAT32Copyin. Its children treat the chains (Chain), the space of a file (Space),
--     the volume between two copies (Volume), a copy that goes through (Run, Kept, Correct, Stored),
--     one that is refused or given up (Refused, Failed), names (Name), and single entries and clusters
--     (Access).
--   Fat/Stamp: FAT32Date and FAT32Time.
--   Fat/Region: numSectorDataRegion and clusterToFATEntry.
--   Crc32: crc32_tab, __efi_crc32 and crc32 of gpt/gpt.c.
--   Gpt: gpt/gpt.h and gpt/gpt.c: createProtectGPT (Protect), the loop that gives partitions their
--     sectors (Allocate), the array of entries (Entries), GPTGenerate (Generate) and GPTParse (Parse).
--     Headers treats both headers step by step; Roundtrip, HeaderSum and Sums what a reader finds.
--   Installer: gpt/installer.c: mkpart, copyin, and the steps of main that call them and createFAT32.
--     Requests has what is asked of GPTGenerate, Layout is where the partition table and the volume
--     meet, Files has the copies.
--   Loader: bootloader/vmlinux.c, with read_disk of bootloader/serial.h (Disk): __k_readfile (ReadFile),
--     one segment of an ELF file (Segments), the loop over them (Program) and __elf_main (Start).
--   Url: apt/url.c and apt/url.h: urlparse in its steps (find_separator, find_proto, scan_host,
--     scan_port, finish_parse), and url_strcpy. Text has URLs as text, Print what is read in it, Copy
--     the parts of a URL, and Total is about any string.
--   Malloc: tlibc/malloc.c, with the lists and the header of a page (Page), one cache (Cache), and
--     mymalloc, myfree, myrealloc, cpp_alloc, cpp_free and malloc_fini (Api). Ghost is the invariant:
--     a status for each address and an owner for each page; its children treat one step each, Alloc
--     and Free whole calls. History has the calls of a program with the pages that the system has
--     mapped for it; Refine and Resize show that the invariant stays, Safety and Exit what a program
--     may rely on. Cpp and Links are about cpp_alloc with cpp_free, and about the list of a page.
--   Device/Zero: device_file_read of device/zero/init.c, on parameters for copy_to_user and for what the
--     kernel has behind the device's array.
--   Common, Bits: shared names, and the laws of &, | and ^.
--   Tests: the theorems at concrete inputs.
--
-- How the model corresponds to the code. A buffer pointer is an address; a function that writes
-- takes a memory and gives the new one. Fixed-width arithmetic keeps its wrap-around as a remainder
-- (u16, u32, u64, sub32, sub64). A failed assertion, a null dereference, a division by zero and an
-- index outside an array are `none`. The system calls of FAT32Copyin on its file descriptor are a
-- record with the results of fstat, lseek and read, of whose errors only the call is kept, and malloc in GPTParse is a parameter that says
-- for which sizes it succeeds; strdup is taken to succeed.
--
-- The heap of malloc.c is typed: the links of blocks, the headers of pages and the table of caches
-- are maps of their own, and an address is not bounded. The call of mmap is a parameter, those of
-- munmap and memcpy are in the result. A program in History calls one function after the other,
-- passes only null and what it holds to myfree and myrealloc, and asks for sizes below 2^64 - 4127.
--
-- The loader has one memory, in which its array on the stack and its buffer for a sector have places;
-- the words that the disk gives after the bytes written to its ports are a parameter. A theorem takes
-- it that the disk answers the command READ SECTORS with a 28-bit address as the ATA standard says. The
-- program header is read through its pointer into the array, also behind the copy of its segment.
--
-- Fuel and bounds. The walk of FAT32SuperInit along the chain of the root directory has fuel; the
-- volumes of createFAT32 need one step, as stated below. The loops of the validation have more
-- rounds than they can take (5 and 9), and the read of the zero device one for each byte. The loops
-- of page_header_init have 32 and 256 rounds, where a block has 16 bytes at least and a page 4096.
-- __k_readfile has as many rounds as there are bytes to read. All other loops recurse on their counts.
-- A valid configuration describes a volume of less than 4 GiB, whose byte offsets fit uint32_t as the
-- code computes them.
--
-- Not modelled: FAT32Mkdir (a stub), the rest of gpt/installer.c and the other tools around these
-- functions (gpt/mkgpt.c, gpt/readgpt.c, gpt/init.c, gpt/blockdev.c), calloc and reallocarray of
-- tlibc/malloc.c, the downloader under apt/, the rest of bootloader/ and bios/, and the other handlers under
-- device/, which return a constant or the count.
pub mod Common
pub mod Memory
pub mod Endian
pub mod Bits
pub mod Fat
pub mod Crc32
pub mod Gpt
pub mod Installer
pub mod Malloc
pub mod Url
pub mod Loader
pub mod Device
pub mod Tests
