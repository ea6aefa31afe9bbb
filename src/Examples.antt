-- ===== src/Examples.antt =====
-- The properties at concrete inputs, a module for each part of the program.
mod Wire
mod Net
mod Inflate
mod FastAlloc
mod Pak
mod Lsf
mod PakFix
mod PakFixBuild
mod Affinity
mod GameFiles
mod VulkanMemory
