-- ===== src/X86/Ops.antt =====
-- src/backend/codegen/x86_64_writer.hpp: the public methods, in one module for each kind of operands, since
-- their names are overloaded.
pub mod RegToReg
pub mod RegToMem
pub mod MemToReg
pub mod ImmToReg
pub mod ImmToMem
pub mod Reg
pub mod OfMem
pub mod Short
pub mod Near
pub mod Simd
pub mod Plain
