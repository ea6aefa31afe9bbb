-- ===== src/GameFiles.antt =====
-- src/game_files.cpp: which file of the game's data a path names, and what the archives and the loose
-- files hold of it.
pub mod Map
pub mod Host
pub mod Index
pub mod Lookup
pub mod Refinement
pub mod Sorting
pub mod Answers
pub mod Ordering
pub mod Prefix
