-- ===== src/X86/Ops/ImmToReg.antt =====
-- src/backend/codegen/x86_64_writer.hpp: the public methods on an immediate and a register. The overloads for signed and for unsigned immediates are one
-- definition, and `none` is the exception for an immediate of 8 bytes.
use occult.Common.{◌∷◌, Bytes, if◌then◌else◌, Option, some}
use occult.X86.Registers.{Grp}
use occult.X86.Encoding.{operand_size_override}
use occult.X86.Emit.Immediate.{
  Imm, do_8, no_64, emit_imm, assert_imm_size, imm_fits_signed, imm_fits_unsigned,
}
use occult.X86.Emit.Reg.{emit_reg_imm, emit_reg_imm_basic}
use occult.X86.Opcodes.{
  add_rm8_imm8, add_rm8_to_64_imm16_or_32, imul_r16_to_64_rm16_to_64_imm16_to_32,
  imul_r16_to_64_rm16_to_64_imm8, mov_r16_to_64_imm16_to_64, mov_r8_imm8, or_rm8_imm8,
  or_rm8_to_64_imm16_or_32, push_imm16_or_32, push_imm8, rol_rm16_to_64_imm8, rol_rm8_imm8,
  test_rm16_to_64_imm16_or_32, test_rm8_imm8,
}

abbrev pub emit_push_signed : Imm → Option Bytes
emit_push_signed imm = assert_imm_size imm (
    some (
      if imm_fits_signed 8 imm
      then push_imm8 ∷ emit_imm imm 1
      else if imm_fits_signed 16 imm
      then operand_size_override ∷ push_imm16_or_32 ∷ emit_imm imm 2
      else push_imm16_or_32 ∷ emit_imm imm 4))

abbrev pub emit_push_unsigned : Imm → Option Bytes
emit_push_unsigned imm = assert_imm_size imm (
    some (
      if imm_fits_unsigned 8 imm
      then push_imm8 ∷ emit_imm imm 1
      else if imm_fits_unsigned 16 imm
      then operand_size_override ∷ push_imm16_or_32 ∷ emit_imm imm 2
      else push_imm16_or_32 ∷ emit_imm imm 4))

abbrev pub emit_imul : Grp → Grp → Imm → Option Bytes
emit_imul dest base imm = assert_imm_size imm (
    some (
      emit_reg_imm imul_r16_to_64_rm16_to_64_imm8 imul_r16_to_64_rm16_to_64_imm16_to_32 base imm
        dest no_64))

abbrev pub emit_add : Grp → Imm → Option Bytes
emit_add dest imm =
    assert_imm_size imm
      (some (emit_reg_imm add_rm8_imm8 add_rm8_to_64_imm16_or_32 dest imm 0 no_64))

abbrev pub emit_or : Grp → Imm → Option Bytes
emit_or dest imm =
    assert_imm_size imm (some (emit_reg_imm or_rm8_imm8 or_rm8_to_64_imm16_or_32 dest imm 1 no_64))

abbrev pub emit_adc : Grp → Imm → Option Bytes
emit_adc dest imm =
    assert_imm_size imm (some (emit_reg_imm or_rm8_imm8 or_rm8_to_64_imm16_or_32 dest imm 2 no_64))

abbrev pub emit_sbb : Grp → Imm → Option Bytes
emit_sbb dest imm =
    assert_imm_size imm (some (emit_reg_imm or_rm8_imm8 or_rm8_to_64_imm16_or_32 dest imm 3 no_64))

abbrev pub emit_and : Grp → Imm → Option Bytes
emit_and dest imm =
    assert_imm_size imm (some (emit_reg_imm or_rm8_imm8 or_rm8_to_64_imm16_or_32 dest imm 4 no_64))

abbrev pub emit_sub : Grp → Imm → Option Bytes
emit_sub dest imm =
    assert_imm_size imm (some (emit_reg_imm or_rm8_imm8 or_rm8_to_64_imm16_or_32 dest imm 5 no_64))

abbrev pub emit_xor : Grp → Imm → Option Bytes
emit_xor dest imm =
    assert_imm_size imm (some (emit_reg_imm or_rm8_imm8 or_rm8_to_64_imm16_or_32 dest imm 6 no_64))

abbrev pub emit_cmp : Grp → Imm → Option Bytes
emit_cmp dest imm =
    assert_imm_size imm (some (emit_reg_imm or_rm8_imm8 or_rm8_to_64_imm16_or_32 dest imm 7 no_64))

abbrev pub emit_mov : Grp → Imm → Bytes
emit_mov dest imm = emit_reg_imm_basic mov_r8_imm8 mov_r16_to_64_imm16_to_64 dest imm

abbrev pub emit_rol : Grp → Imm → Bytes
emit_rol dest imm = emit_reg_imm rol_rm8_imm8 rol_rm16_to_64_imm8 dest imm 0 do_8

abbrev pub emit_ror : Grp → Imm → Bytes
emit_ror dest imm = emit_reg_imm rol_rm8_imm8 rol_rm16_to_64_imm8 dest imm 1 do_8

abbrev pub emit_rcl : Grp → Imm → Bytes
emit_rcl dest imm = emit_reg_imm rol_rm8_imm8 rol_rm16_to_64_imm8 dest imm 2 do_8

abbrev pub emit_rcr : Grp → Imm → Bytes
emit_rcr dest imm = emit_reg_imm rol_rm8_imm8 rol_rm16_to_64_imm8 dest imm 3 do_8

abbrev pub emit_shl : Grp → Imm → Bytes
emit_shl dest imm = emit_reg_imm rol_rm8_imm8 rol_rm16_to_64_imm8 dest imm 4 do_8

abbrev pub emit_shr : Grp → Imm → Bytes
emit_shr dest imm = emit_reg_imm rol_rm8_imm8 rol_rm16_to_64_imm8 dest imm 5 do_8

abbrev pub emit_sal : Grp → Imm → Bytes
emit_sal dest imm = emit_reg_imm rol_rm8_imm8 rol_rm16_to_64_imm8 dest imm 6 do_8

abbrev pub emit_sar : Grp → Imm → Bytes
emit_sar dest imm = emit_reg_imm rol_rm8_imm8 rol_rm16_to_64_imm8 dest imm 7 do_8

abbrev pub emit_test : Grp → Imm → Option Bytes
emit_test dest imm =
    assert_imm_size imm
      (some (emit_reg_imm test_rm8_imm8 test_rm16_to_64_imm16_or_32 dest imm 1 no_64))
