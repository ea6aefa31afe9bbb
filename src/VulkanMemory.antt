-- ===== src/VulkanMemory.antt =====
-- src/vulkan_memory.cpp: keeping the engine's uploads out of slow video memory.
pub mod Policy
pub mod Hiding
