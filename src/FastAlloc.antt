-- ===== src/FastAlloc.antt =====
-- src/fast_alloc.cpp: the per-thread block allocator that replaces PhysX's TempAllocator.
--
-- One thread's pool with its memory: `word` is the 8-byte word at an address. A block's header is
-- two words, the magic number and the size class; while the block is free, its first word is the
-- pointer to the next free one (`FreeNode` over `Header`). A null pointer is 0. PhysX's own
-- allocator and `mmap` are outside: a call that goes on to PhysX is an answer of the hook, and
-- `mmap`'s result is an argument.
pub mod Pool
pub mod Classes
pub mod Recycling
