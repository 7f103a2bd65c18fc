-- ===== src/X86/Emit/Reg.antt =====
-- src/backend/codegen/x86_64_writer.hpp: instructions whose operands are registers and immediates.
use occult.Common.{ℕ, Bool, ◌||◌, ◌+◌, ◌%◌, ◌++◌, [], ◌∷◌, Bytes, if◌then◌else◌}
use occult.X86.Registers.{Grp, rebase_register}
use occult.X86.Encoding.{
  rex_b, rex_r, rex_rb, rex_w, rex_wb, rex_wr, rex_wrb, operand_size_override, register_direct,
  modrm,
}
use occult.X86.Emit.Prefix.{
  reg_r8b, reg_8, reg_r8w, reg_16, reg_r8d, reg_32, reg_r8q, reg_64, two_byte, pair_rex,
}
use occult.X86.Emit.Immediate.{Imm, ImmMode, do_8, do_16, no_64, normal, emit_imm}

-- The opcode and the ModRM byte that end every branch.
abbrev direct : ℕ → Grp → Grp → Bool → Bytes
direct op dest base is_two_byte =
    two_byte is_two_byte
    ++ (op ∷ modrm register_direct (rebase_register base) (rebase_register dest) ∷ [])

-- Registers of no range push nothing.
unfoldable pub emit_reg_to_reg : ℕ → ℕ → Grp → Grp → Bool → Bytes
emit_reg_to_reg op8 op dest base is_two_byte =
    if reg_r8b dest || reg_8 dest || reg_r8b base || reg_8 base
    then pair_rex (reg_r8b dest) (reg_r8b base) rex_rb rex_b rex_r []
      ++ direct op8 dest base is_two_byte
    else if reg_r8w dest || reg_16 dest || reg_r8w base || reg_16 base
    then operand_size_override ∷ pair_rex (reg_r8w dest) (reg_r8w base) rex_rb rex_b rex_r []
      ++ direct op dest base is_two_byte
    else if reg_r8d dest || reg_32 dest || reg_r8d base || reg_32 base
    then pair_rex (reg_r8d dest) (reg_r8d base) rex_rb rex_b rex_r []
      ++ direct op dest base is_two_byte
    else if reg_r8q dest || reg_64 dest || reg_r8q base || reg_64 base
    then pair_rex (reg_r8q dest) (reg_r8q base) rex_wrb rex_wb rex_wr (rex_w ∷ [])
      ++ direct op dest base is_two_byte
    else []

-- The second test for the same range, which gives `rex_b`, is never reached.
unfoldable pub emit_reg : ℕ → ℕ → Grp → Bytes
emit_reg op8 op r =
    if reg_r8b r || reg_8 r
    then (if reg_r8b r then rex_rb ∷ [] else []) ++ ((op8 + rebase_register r) % 256 ∷ [])
    else if reg_r8w r || reg_16 r
    then operand_size_override ∷ (if reg_r8w r then rex_rb ∷ [] else [])
      ++ ((op + rebase_register r) % 256 ∷ [])
    else if reg_r8d r || reg_32 r
    then (if reg_r8d r then rex_rb ∷ [] else []) ++ ((op + rebase_register r) % 256 ∷ [])
    else if reg_r8q r || reg_64 r
    then (if reg_r8q r then rex_wrb ∷ [] else []) ++ ((op + rebase_register r) % 256 ∷ [])
    else []

-- The size of the immediate in the branches for 16, for 32 and for 64 bits.
abbrev pub imm_size_16 : ImmMode → ℕ
imm_size_16 do_8 = 1
imm_size_16 _ = 2

abbrev pub imm_size_32 : ImmMode → ℕ
imm_size_32 do_8 = 1
imm_size_32 _ = 4

abbrev pub imm_size_64 : ImmMode → ℕ
imm_size_64 no_64 = 4
imm_size_64 do_8 = 1
imm_size_64 normal = 8
imm_size_64 do_16 = 0

abbrev group : ℕ → Grp → ℕ → Bytes
group op dest rm = op ∷ modrm register_direct rm (rebase_register dest) ∷ []

-- The flag `is_signed` only chooses the C++ type of the same bytes.
unfoldable pub emit_reg_imm : ℕ → ℕ → Grp → Imm → ℕ → ImmMode → Bytes
emit_reg_imm op8 op dest imm rm im_m =
    if reg_r8b dest || reg_8 dest
    then (if reg_r8b dest then rex_b ∷ [] else []) ++ group op8 dest rm ++ emit_imm imm 1
    else if reg_r8w dest || reg_16 dest
    then operand_size_override ∷ (if reg_r8w dest then rex_b ∷ [] else [])
      ++ group op dest rm
      ++ emit_imm imm (imm_size_16 im_m)
    else if reg_r8d dest || reg_32 dest
    then (if reg_r8d dest then rex_b ∷ [] else [])
      ++ group op dest rm
      ++ emit_imm imm (imm_size_32 im_m)
    else if reg_r8q dest || reg_64 dest
    then (if reg_r8q dest then rex_wb else rex_w) ∷ group op dest rm
      ++ emit_imm imm (imm_size_64 im_m)
    else []

unfoldable pub emit_reg_imm_basic : ℕ → ℕ → Grp → Imm → Bytes
emit_reg_imm_basic op8 op dest imm =
    if reg_r8b dest || reg_8 dest
    then (if reg_r8b dest then rex_b ∷ [] else [])
      ++ ((op8 + rebase_register dest) % 256 ∷ emit_imm imm 1)
    else if reg_r8w dest || reg_16 dest
    then operand_size_override ∷ (if reg_r8w dest then rex_b ∷ [] else [])
      ++ ((op + rebase_register dest) % 256 ∷ emit_imm imm 2)
    else if reg_r8d dest || reg_32 dest
    then (if reg_r8d dest then rex_b ∷ [] else [])
      ++ ((op + rebase_register dest) % 256 ∷ emit_imm imm 4)
    else if reg_r8q dest || reg_64 dest
    then (if reg_r8q dest then rex_wb else rex_w)
      ∷ (op + rebase_register dest) % 256
      ∷ emit_imm imm 8
    else []

-- `emit_setX_reg8`, where the register operand is an opcode extension of 0.
abbrev pub emit_setx_reg8 : ℕ → Grp → Bytes
emit_setx_reg8 op reg = emit_reg_to_reg op op reg 0 Bool.true
