-- ===== src/Asm.antt =====
-- src/backend/codegen/x86_64_assembler_defs.hpp and x86_64_assembler.hpp: the inline assembler over the encoder.
pub mod Token
pub mod Tables
pub mod Parse
pub mod Operands
pub mod Instruction
pub mod Tokenizer
pub mod Known
pub mod Scan
pub mod Registers
pub mod Spelling
pub mod Reading
pub mod Meaning
pub mod Errors
pub mod Left
pub mod Terminates
mod Tests
