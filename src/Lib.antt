-- ===== src/Lib.antt =====
-- emufxtool: the assembler, disassembler and loader for the effects processor (DSP) of the
-- emu10k1 sound chip.
--
-- A source text is scanned into words (scanner.C), parsed into symbols, expressions and
-- instructions (parser.C, instruction.C) and compiled into an image (patch.C): registers,
-- constants, tram blocks, code, controls and exported symbols. The image packs its instructions
-- with the geometry of the DSP (dsp.C), and is saved to and loaded from a patch file, which is a
-- chunked archive (chunkfile.C).
--
-- Which file models what:
--   * Base: the names that all files share, Boolean tests, lists measured by native numbers, maps
--     (`std::map` is an association list in the order of its keys, Base/Table), text as bytes
--     (`emuString` and C strings, Base/Text).
--   * Words, Flags: the integer types and the flag words of asmdefs.h. `emu32` and `unsigned long`
--     have 32 bits, as on the i386 Linux that the program was written for; casts, shifts and
--     additions write their wrap-around out.
--   * Dsp: `emuDSP` of dsp.C. The record `Dsp` has the members of the class, so that the `get`
--     methods are its fields; set64, extract64, split_instr, join_instr, is_gpr, is_line, is_iline.
--   * Archive: `chunkArchive` of chunkfile.C over `chunkStreamFILE` of chunkfile.h. A method is a
--     function from the state of the archive to an `Outcome`, which returns or throws.
--     Archive/Stream is the file, Archive/Output the writers, Archive/Input the readers;
--     Archive/OutputLaws, Chunks, InputLaws, Contents say which bytes they append and consume.
--   * Image: `emuImage`, `emuCode`, `emuControl`, `emuExport` and `emuRelocationMap` of patch.h and
--     patch.C. Image/Data has the records, Image/Registers the search for a free register and the
--     relocation, Image/Operations the methods.
--   * Patch: `emuPatch::Save` and `emuPatch::Load` of patch.C. Patch/Save and Patch/Load are the
--     code; Patch/Layout describes a patch file as a function of the image, byte by byte.
--     `emuPatch::hwSet` and `hwGet`: Patch/Hardware has the registers and instructions in the
--     structure of the kernel driver, a record of the members that are used, Patch/Controls the
--     controls. A write behind the end of an array is `none`. Patch/Disassembly has the names of
--     addresses, and of `emuImage::unassemble` the loop that finds labels, and `emuImage::unAsm`.
--   * Scanner: `Scanner`, `TokenMap` and `StringParserStream` of scanner.C and scanner.h.
--     Scanner/Tables has separators, blanks and tokens, Scanner/Stream the character streams and
--     their stack, Scanner/Words `GetNextWord`, Scanner/Literals `escape` and `literal`;
--     Scanner/Splitting describes words by recursion on the text.
--   * Symbols: `emuValue`, `emuInitializer`, its property list, `emuMacro`, `emuLabel` and
--     `emuInstructionList` of instruction.C and instruction.h.
--     Symbols/Values has the flag words and properties, Symbols/Initializers, Macros and Instructions
--     the rest; a pointer to an initializer or an instruction is a number.
--   * Expression: `emuExpression` and its kinds as trees (Expression/Trees: `Eval`, `EvalFlags`,
--     `EvalType`), and the numbers of `emuNumber` as text (Expression/Numbers).
--     Expression/Arithmetic says which integer an expression stands for.
--   * Parser: `emuParser` of parser.C and parser.h. Parser/Tokens and Setup are its tokens and
--     tables, Parser/State its members and the monad `Method`, whose outcome is a result, an
--     exception with the state that it leaves, or `stuck`: fuel ran out or the behaviour is
--     undefined. Parser/Reading has the streams and `ReadAList`, Blocks `ParseBlock` and
--     `ParseMacro`, Numerals `GetNextFloat`, Expressions the bodies of `ParseExpression` and
--     `ParseExpressionElement`, Preprocessor and Directives that of `GetNextWord`, Recursion ties the three
--     together with one fuel, Declarations has `ParseInstruction` and the properties, Initializers,
--     Variables and Program the methods of these names and `ParsePatch`. The record `Library` is
--     what the C library does: `sscanf`, `fopen`, and what an uninitialised variable holds.
--     Parser/Operators has the stacks of `ParseExpression`, Parser/Order describes its trees,
--     and Parser/Chains ties them to the elements and tokens that are read. Parser/Keeps has a rule
--     for each way to build a method, and its children apply them to all methods.
--     Parser/Recovery is about the handler of `ParsePatch`, Parser/Endless about an endless loop.
--   * Compiler: `emuParser::compile` of parser.C. Compiler/Objects is the store that its pointers
--     point to, in which a deleted object is `none`; to follow such a pointer is undefined. Compiler/Allocate the loop over `SYMLIST`, Compiler/Assemble those over `ILIST` and
--     `SYMTAB`; Growth, Operands, Laws, Encoding and Compiled follow an image through it.
--   * Driver: the bit sets of fx8010asm.h and `flagsToString` of strdsp.C.
--
-- Bounds and fuel: the search for a free register has one round more than there are registers; a
-- word needs more fuel than the text has characters; loading a file that was saved needs nine
-- rounds, one for each chunk. Files stay below 2 ^ 31 bytes, where `fseek` takes any position.
--
-- What is not modelled: ioctl calls, the command line, messages
-- and listings, the unfinished emutree.h, failing allocation, and freeing, except that of an
-- element whose name is declared again. `sscanf` and
-- floating-point numbers are parameters. The saving of symbols to a file and the reading of them,
-- and what the disassembler lists of controls and registers, are not modelled.
pub mod Base
pub mod Words
pub mod Dsp
pub mod Archive
pub mod Flags
pub mod Image
pub mod Patch
pub mod Scanner
pub mod Symbols
pub mod Expression
pub mod Driver
pub mod Parser
pub mod Compiler
