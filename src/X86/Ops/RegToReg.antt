-- ===== src/X86/Ops/RegToReg.antt =====
-- src/backend/codegen/x86_64_writer.hpp: the public methods on from a register to a register.
use occult.Common.{Bool, true, false, Bytes, if◌then◌else◌}
use occult.X86.Registers.{Grp}
use occult.X86.Emit.Reg.{emit_reg_to_reg}
use occult.X86.Opcodes.{
  adc_r16_to_64_rm16_to_64, adc_r8_rm8, add_r16_to_64_rm16_to_64, add_r8_rm8,
  and_r16_to_64_rm16_to_64, and_r8_rm8, cmp_r16_to_64_rm16_to_64, cmp_r8_rm8,
  mov_rm16_to_64_r16_to_64, mov_rm8_r8, movsx_r16_to_64_rm16, movsx_r16_to_64_rm8,
  movsxd_r64_or_32_rm32, movzx_r16_to_64_rm16, movzx_r16_to_64_rm8, or_r16_to_64_rm16_to_64,
  or_r8_rm8, sbb_r16_to_64_rm16_to_64, sbb_r8_rm8, sub_r16_to_64_rm16_to_64, sub_r8_rm8,
  test_rm16_to_64_r16_to_64, test_rm8_imm8, xchg_r16_to_64_rm16_to_64, xchg_r8_rm8,
  xor_r16_to_64_rm16_to_64, xor_r8_rm8,
}

abbrev pub emit_add : Grp → Grp → Bytes
emit_add dest base = emit_reg_to_reg add_r8_rm8 add_r16_to_64_rm16_to_64 base dest false

abbrev pub emit_or : Grp → Grp → Bytes
emit_or dest base = emit_reg_to_reg or_r8_rm8 or_r16_to_64_rm16_to_64 base dest false

abbrev pub emit_adc : Grp → Grp → Bytes
emit_adc dest base = emit_reg_to_reg adc_r8_rm8 adc_r16_to_64_rm16_to_64 base dest false

abbrev pub emit_sbb : Grp → Grp → Bytes
emit_sbb dest base = emit_reg_to_reg sbb_r8_rm8 sbb_r16_to_64_rm16_to_64 base dest false

abbrev pub emit_and : Grp → Grp → Bytes
emit_and dest base = emit_reg_to_reg and_r8_rm8 and_r16_to_64_rm16_to_64 base dest false

abbrev pub emit_sub : Grp → Grp → Bytes
emit_sub dest base = emit_reg_to_reg sub_r8_rm8 sub_r16_to_64_rm16_to_64 base dest false

abbrev pub emit_xor : Grp → Grp → Bytes
emit_xor dest base = emit_reg_to_reg xor_r8_rm8 xor_r16_to_64_rm16_to_64 base dest false

abbrev pub emit_cmp : Grp → Grp → Bytes
emit_cmp dest base = emit_reg_to_reg cmp_r8_rm8 cmp_r16_to_64_rm16_to_64 base dest false

abbrev pub emit_test : Grp → Grp → Bytes
emit_test dest base = emit_reg_to_reg test_rm8_imm8 test_rm16_to_64_r16_to_64 dest base false

abbrev pub emit_xchg : Grp → Grp → Bytes
emit_xchg dest base = emit_reg_to_reg xchg_r8_rm8 xchg_r16_to_64_rm16_to_64 dest base false

abbrev pub emit_mov : Grp → Grp → Bytes
emit_mov dest base = emit_reg_to_reg mov_rm8_r8 mov_rm16_to_64_r16_to_64 dest base false

abbrev pub emit_movzx : Grp → Grp → Bool → Bytes
emit_movzx dest base is_8 =
    (if is_8
      then emit_reg_to_reg movzx_r16_to_64_rm8 movzx_r16_to_64_rm8 base dest true
      else emit_reg_to_reg movzx_r16_to_64_rm16 movzx_r16_to_64_rm16 base dest true)

abbrev pub emit_movsx : Grp → Grp → Bool → Bytes
emit_movsx dest base is_8 =
    (if is_8
      then emit_reg_to_reg movsx_r16_to_64_rm8 movsx_r16_to_64_rm8 base dest true
      else emit_reg_to_reg movsx_r16_to_64_rm16 movsx_r16_to_64_rm16 base dest true)

abbrev pub emit_movsxd : Grp → Grp → Bytes
emit_movsxd dest base = emit_reg_to_reg movsxd_r64_or_32_rm32 movsxd_r64_or_32_rm32 base dest false
