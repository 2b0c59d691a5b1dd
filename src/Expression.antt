-- ===== src/Expression.antt =====
-- instruction.h, instruction.C: expressions, their values, flags and types, and numbers as text.
pub mod Arithmetic
pub mod Numbers
pub mod Trees
pub mod NumberLaws
pub mod Tests
