-- ===== src/Scanner.antt =====
-- scanner.h, scanner.C, strdsp.C: the lexical scanner of the assembler.
pub mod Tables
pub mod Stream
pub mod Words
pub mod Literals
pub mod TableLaws
pub mod Reading
pub mod Splitting
pub mod Unescape
pub mod NextWord
pub mod Tests
