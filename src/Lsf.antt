-- ===== src/Lsf.antt =====
-- src/lsf.cpp and src/lsf.h: LSF documents, read far enough to edit their strings, and written back
-- uncompressed.
--
-- A reader is the list of the bytes left. LZ4 and zstd are parameters as they are for archives, and
-- with them `LZ4_decompress_safe_usingDict`.
pub mod Document
pub mod Sections
pub mod Names
pub mod Frames
pub mod Read
pub mod Write
pub mod RoundTrip
