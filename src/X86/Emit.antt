-- ===== src/X86/Emit.antt =====
-- src/backend/codegen/x86_64_writer.hpp: the private methods that encode one kind of operands each. A
-- method is the bytes it appends to the code; a jump also reads the size of the code before it, and a
-- method that throws is an Option.
pub mod Prefix
pub mod Immediate
pub mod Reg
pub mod Memory
pub mod Simd
pub mod Jump
