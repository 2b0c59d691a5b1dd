-- ===== src/Driver.antt =====
-- fx8010asm.h: the sets of bits that the driver's structures hold. strdsp.C: flag words as text.
pub mod BitSets
pub mod FlagNames
pub mod BitSetLaws
pub mod FlagNameLaws
pub mod Tests
