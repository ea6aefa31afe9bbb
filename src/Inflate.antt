-- ===== src/Inflate.antt =====
-- src/inflate.cpp: the DEFLATE decoder that reads zlib-packed archive entries.
--
-- `Bits`, `Huffman`, `Codes`, `Dynamic` and `Stream` are the code from the bit reader up to
-- `inflate`; the other modules prove things of it. The input is the list of bytes not yet read. A
-- step that answers `false` or -1 is `none`: every caller then gives up too, so the state that it
-- leaves is never looked at. Loops run on fuel, one round for each bit that is left and one more.
pub mod Bits
pub mod Huffman
pub mod Codes
pub mod Dynamic
pub mod Stream
pub mod Reading
mod Spending
mod Advance
pub mod Total
pub mod Stored
pub mod Space
