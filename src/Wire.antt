-- ===== src/Wire.antt =====
-- src/pb.h: the sliver of protobuf that the debugger and the extender protocols use.
--
-- A `std::string` is a list of bytes. The writers take the string written so far and return it
-- with the new bytes behind it. A `Reader` is the list of bytes between `p_` and `end_`, and each
-- of its methods returns `none` for `false` and otherwise the value read with the bytes left.
-- A 64-bit integer is a number below 2 ^ 64.
pub mod Write
pub mod Read
pub mod RoundTrip
pub mod Bounds
