-- ===== src/X86/Ops/MemToReg.antt =====
-- src/backend/codegen/x86_64_writer.hpp: the public methods on from memory to a register.
use occult.Common.{Bool, true, false, Bytes, if◌then◌else◌}
use occult.X86.Registers.{Grp}
use occult.X86.Memory.{Mem}
use occult.X86.Emit.Memory.{emit_reg_to_mem}
use occult.X86.Opcodes.{
  adc_r16_to_64_rm16_to_64, adc_r8_rm8, add_r16_to_64_rm16_to_64, add_r8_rm8,
  and_r16_to_64_rm16_to_64, and_r8_rm8, cmp_r16_to_64_rm16_to_64, cmp_r8_rm8, lea_r16_to_64_mem,
  mov_r16_to_64_rm16_to_64, mov_r8_rm8, movsx_r16_to_64_rm16, movsx_r16_to_64_rm8,
  movsxd_r64_or_32_rm32, movzx_r16_to_64_rm16, movzx_r16_to_64_rm8, or_r16_to_64_rm16_to_64,
  or_r8_rm8, sbb_r16_to_64_rm16_to_64, sbb_r8_rm8, sub_r16_to_64_rm16_to_64, sub_r8_rm8,
  xchg_r16_to_64_rm16_to_64, xchg_r8_rm8, xor_r16_to_64_rm16_to_64, xor_r8_rm8,
}

abbrev pub emit_add : Grp → Mem → Bytes
emit_add dest base = emit_reg_to_mem add_r8_rm8 add_r16_to_64_rm16_to_64 base dest false

abbrev pub emit_or : Grp → Mem → Bytes
emit_or dest base = emit_reg_to_mem or_r8_rm8 or_r16_to_64_rm16_to_64 base dest false

abbrev pub emit_adc : Grp → Mem → Bytes
emit_adc dest base = emit_reg_to_mem adc_r8_rm8 adc_r16_to_64_rm16_to_64 base dest false

abbrev pub emit_sbb : Grp → Mem → Bytes
emit_sbb dest base = emit_reg_to_mem sbb_r8_rm8 sbb_r16_to_64_rm16_to_64 base dest false

abbrev pub emit_and : Grp → Mem → Bytes
emit_and dest base = emit_reg_to_mem and_r8_rm8 and_r16_to_64_rm16_to_64 base dest false

abbrev pub emit_sub : Grp → Mem → Bytes
emit_sub dest base = emit_reg_to_mem sub_r8_rm8 sub_r16_to_64_rm16_to_64 base dest false

abbrev pub emit_xor : Grp → Mem → Bytes
emit_xor dest base = emit_reg_to_mem xor_r8_rm8 xor_r16_to_64_rm16_to_64 base dest false

abbrev pub emit_cmp : Grp → Mem → Bytes
emit_cmp dest base = emit_reg_to_mem cmp_r8_rm8 cmp_r16_to_64_rm16_to_64 base dest false

abbrev pub emit_xchg : Grp → Mem → Bytes
emit_xchg dest base = emit_reg_to_mem xchg_r8_rm8 xchg_r16_to_64_rm16_to_64 base dest false

abbrev pub emit_mov : Grp → Mem → Bytes
emit_mov dest base = emit_reg_to_mem mov_r8_rm8 mov_r16_to_64_rm16_to_64 base dest false

abbrev pub emit_lea : Grp → Mem → Bytes
emit_lea dest base = emit_reg_to_mem lea_r16_to_64_mem lea_r16_to_64_mem base dest false

abbrev pub emit_movzx : Grp → Mem → Bool → Bytes
emit_movzx dest base is_8 =
    (if is_8
      then emit_reg_to_mem movzx_r16_to_64_rm8 movzx_r16_to_64_rm8 base dest true
      else emit_reg_to_mem movzx_r16_to_64_rm16 movzx_r16_to_64_rm16 base dest true)

abbrev pub emit_movsx : Grp → Mem → Bool → Bytes
emit_movsx dest base is_8 =
    (if is_8
      then emit_reg_to_mem movsx_r16_to_64_rm8 movsx_r16_to_64_rm8 base dest true
      else emit_reg_to_mem movsx_r16_to_64_rm16 movsx_r16_to_64_rm16 base dest true)

abbrev pub emit_movsxd : Grp → Mem → Bytes
emit_movsxd dest base = emit_reg_to_mem movsxd_r64_or_32_rm32 movsxd_r64_or_32_rm32 base dest false
