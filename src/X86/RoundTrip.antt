-- ===== src/X86/RoundTrip.antt =====
-- src/backend/codegen/x86_64_writer.hpp: decoding gives back what was encoded.
pub mod Ranges
pub mod Bytes
pub mod Registers
pub mod Memory
pub mod Address
pub mod Immediate
pub mod Jump
pub mod Simd
pub mod SimdMemory
pub mod Alu
pub mod Unary
pub mod Narrow
