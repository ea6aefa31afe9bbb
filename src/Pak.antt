-- ===== src/Pak.antt =====
-- src/pak.cpp and src/pak.h: LSPK archives, the file lists in them and the files' contents.
--
-- An archive is the list of its bytes; `none` for `false`. LZ4 and zstd are libraries outside the
-- repository's own code and come in as the record `Codecs`; zlib is `inflate` of src/inflate.cpp.
-- Opening and writing files is taken to succeed.
pub mod Format
pub mod Read
pub mod Write
pub mod Cache
pub mod Kept
pub mod Entries
pub mod RoundTrip
pub mod Relisting
