-- ===== src/Arch.antt =====
-- The x86 parts: src/arch/x86 and include/arch/x86.
pub mod Descriptor
pub mod Pic
pub mod Video
pub mod Pit
