-- ===== src/Parser.antt =====
-- parser.C: the parser.
pub mod Operators
pub mod Order
pub mod Tokens
pub mod Setup
pub mod State
pub mod Reading
pub mod Blocks
pub mod Numerals
pub mod Expressions
pub mod Directives
pub mod Preprocessor
pub mod Recursion
pub mod Declarations
pub mod Initializers
pub mod Variables
pub mod Program
pub mod Keeps
pub mod Recovery
pub mod Chains
pub mod Endless
pub mod Tests
