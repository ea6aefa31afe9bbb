-- ===== src/PakFix.antt =====
-- src/pak_fix.cpp: the repair of archives whose files refer to each other in the wrong case: the
-- functions on names and references, the checksum, and the class `Fixer`.
pub mod Names
pub mod Paths
pub mod Groups
pub mod Choice
pub mod Climbs
pub mod Finding
pub mod Union
pub mod State
pub mod Fixer
pub mod Scan
pub mod Unify
pub mod Growing
pub mod Steps
pub mod Pinned
pub mod Built
pub mod Tokens
pub mod Scanned
pub mod Repair
pub mod Build
pub mod Placing
pub mod Parts
pub mod PartNames
