-- ===== src/X86/Emit/Prefix.antt =====
-- src/backend/codegen/x86_64_writer.hpp: the ranges of registers that the branches test, and the prefix
-- bytes they push.
use occult.Common.{Bool, ◌&&◌, Bytes, [], ◌∷◌, if◌then◌else◌, ℕ}
use occult.X86.Registers.{
  Grp, reg_range, rax, rdi, r8, r15, eax, edi, r8d, r15d, ax, di, r8w, r15w, al, dil, r8b, r15b,
}
use occult.X86.Encoding.{two_byte_opcode_prefix}

unfoldable pub reg_r8b : Grp → Bool
reg_r8b reg = reg_range reg r8b r15b

unfoldable pub reg_8 : Grp → Bool
reg_8 reg = reg_range reg al dil

unfoldable pub reg_r8w : Grp → Bool
reg_r8w reg = reg_range reg r8w r15w

unfoldable pub reg_16 : Grp → Bool
reg_16 reg = reg_range reg ax di

unfoldable pub reg_r8d : Grp → Bool
reg_r8d reg = reg_range reg r8d r15d

unfoldable pub reg_32 : Grp → Bool
reg_32 reg = reg_range reg eax edi

unfoldable pub reg_r8q : Grp → Bool
reg_r8q reg = reg_range reg r8 r15

unfoldable pub reg_64 : Grp → Bool
reg_64 reg = reg_range reg rax rdi

-- `CHECK_2BYTE_OPCODE_PREFIX_AND_PUSH`
abbrev pub two_byte : Bool → Bytes
two_byte is_two_byte = if is_two_byte then two_byte_opcode_prefix ∷ [] else []

-- The chain of a branch of `emit_reg_to_reg`: the REX byte when both registers are extended, when only
-- `dest` is, when only `base` is, and the bytes otherwise.
abbrev pub pair_rex : Bool → Bool → ℕ → ℕ → ℕ → Bytes → Bytes
pair_rex dest_extended base_extended both only_dest only_base neither =
    if dest_extended && base_extended
    then both ∷ []
    else if dest_extended
    then only_dest ∷ []
    else if base_extended
    then only_base ∷ []
    else neither
