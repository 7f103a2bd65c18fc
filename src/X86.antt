-- ===== src/X86.antt =====
-- src/backend/codegen/x86_64_defs.hpp and x86_64_writer.hpp: the encoder of x86-64 instructions.
pub mod Registers
pub mod Encoding
pub mod Numbering
pub mod Opcodes
pub mod Memory
pub mod Emit
pub mod Ops
pub mod Decoder
pub mod Parts
pub mod Place
pub mod Widths
pub mod RoundTrip
mod Tests
