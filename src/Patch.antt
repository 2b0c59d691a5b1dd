-- ===== src/Patch.antt =====
-- patch.C: saving an image as a patch file and loading it back.
pub mod Tests
pub mod Format
pub mod Save
pub mod Load
pub mod Layout
pub mod Written
pub mod Storable
pub mod Records
pub mod Restored
pub mod Hardware
pub mod Disassembly
pub mod Controls
pub mod Laws
