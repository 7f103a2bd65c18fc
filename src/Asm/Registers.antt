-- ===== src/Asm/Registers.antt =====
-- src/backend/codegen/x86_64_assembler_defs.hpp: the tokens of the registers by width and number.
use occult.Common.{ℕ, ◌+◌, ◌<◌, Bool, true, if◌then◌else◌, some, ◌≡◌, arith}
use occult.Linker.Link.{find}
use occult.X86.Numbering.{Width, bits8, bits16, bits32, bits64, grp_of}
use occult.Asm.Token
use occult.Asm.Token.{InstrToken}
use occult.Asm.Tables.{
  assembler_token_to_gpr, is_gpr, assembler_token_to_gpr64, assembler_token_to_gpr32,
  assembler_token_to_gpr16, assembler_token_to_gpr8,
}

abbrev pub token_of : Width → Bool → ℕ → InstrToken
token_of bits8 e f = (if e then Token.r8b else Token.al) + f
token_of bits16 e f = (if e then Token.r8w else Token.ax) + f
token_of bits32 e f = (if e then Token.r8d else Token.eax) + f
token_of bits64 e f = (if e then Token.r8 else Token.rax) + f

-- A register of any width is read as the 64-bit register that it is a part of.
pub assembler_token_to_gpr-token_of :
    (width : Width) (e : Bool) (f : ℕ)
    → f < 8
    → assembler_token_to_gpr (token_of width e f) ≡ some (grp_of bits64 e f)
unfolding assembler_token_to_gpr find assembler_token_to_gpr64 assembler_token_to_gpr32
    assembler_token_to_gpr16 assembler_token_to_gpr8
assembler_token_to_gpr-token_of bits8 e f h = ground arith
assembler_token_to_gpr-token_of bits16 e f h = ground arith
assembler_token_to_gpr-token_of bits32 e f h = ground arith
assembler_token_to_gpr-token_of bits64 e f h = ground arith

pub is_gpr-token_of :
    (width : Width) (e : Bool) (f : ℕ) → f < 8 → is_gpr (token_of width e f) ≡ true
unfolding is_gpr find assembler_token_to_gpr64 assembler_token_to_gpr32 assembler_token_to_gpr16
    assembler_token_to_gpr8
is_gpr-token_of bits8 e f h = ground arith
is_gpr-token_of bits16 e f h = ground arith
is_gpr-token_of bits32 e f h = ground arith
is_gpr-token_of bits64 e f h = ground arith
