-- ===== src/Affinity.antt =====
-- src/affinity.cpp: which of the engine's requests to pin a thread are widened to every cpu.
--
-- A cpu set of some bytes is the list of its bits. The calls that the library interposes are steps
-- of a state; the functions that they call on are outside, and a step says what they are given.
pub mod Masks
pub mod Pins
pub mod Calls
pub mod Sets
pub mod Table
pub mod Game
