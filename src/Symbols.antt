-- ===== src/Symbols.antt =====
-- instruction.h, instruction.C: what the parser collects. Flag words and initializers with their
-- properties, macros, labels and the list of instructions.
pub mod Values
pub mod Initializers
pub mod Macros
pub mod Instructions
pub mod FlagLaws
pub mod InitializerLaws
pub mod MacroLaws
pub mod Expansion
pub mod InstructionLaws
pub mod Tests
