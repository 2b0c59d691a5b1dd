-- ===== src/Compiler.antt =====
-- parser.C, `emuParser::compile`: from the symbols and instructions of a program to an image.
pub mod Objects
pub mod Allocate
pub mod Assemble
pub mod Growth
pub mod Operands
pub mod Laws
pub mod Encoding
pub mod Compiled
pub mod Tests
