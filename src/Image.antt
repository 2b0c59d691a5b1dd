-- ===== src/Image.antt =====
-- patch.h, patch.C: the image of a patch, that is the registers, constants, tram blocks, code,
-- controls and exported symbols that the assembler fills and the archive stores.
pub mod Tests
pub mod Data
pub mod Registers
pub mod Operations
pub mod FirstFree
pub mod Constants
pub mod Allocation
pub mod Trams
