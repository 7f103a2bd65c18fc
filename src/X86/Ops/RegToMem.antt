-- ===== src/X86/Ops/RegToMem.antt =====
-- src/backend/codegen/x86_64_writer.hpp: the public methods on from a register to memory.
use occult.Common.{false, Bytes}
use occult.X86.Registers.{Grp}
use occult.X86.Memory.{Mem}
use occult.X86.Emit.Memory.{emit_reg_to_mem}
use occult.X86.Opcodes.{
  adc_rm16_to_64_r16_to_64, adc_rm8_r8, add_rm16_to_64_r16_to_64, add_rm8_r8,
  and_rm16_to_64_r16_to_64, and_rm8_r8, cmp_rm16_to_64_r16_to_64, cmp_rm8_r8,
  mov_rm16_to_64_r16_to_64, mov_rm8_r8, or_rm16_to_64_r16_to_64, or_rm8_r8,
  sbb_rm16_to_64_r16_to_64, sbb_rm8_r8, sub_rm16_to_64_r16_to_64, sub_rm8_r8,
  test_rm16_to_64_r16_to_64, test_rm8_imm8, xor_rm16_to_64_r16_to_64, xor_rm8_r8,
}

abbrev pub emit_add : Mem → Grp → Bytes
emit_add dest base = emit_reg_to_mem add_rm8_r8 add_rm16_to_64_r16_to_64 dest base false

abbrev pub emit_or : Mem → Grp → Bytes
emit_or dest base = emit_reg_to_mem or_rm8_r8 or_rm16_to_64_r16_to_64 dest base false

abbrev pub emit_adc : Mem → Grp → Bytes
emit_adc dest base = emit_reg_to_mem adc_rm8_r8 adc_rm16_to_64_r16_to_64 dest base false

abbrev pub emit_sbb : Mem → Grp → Bytes
emit_sbb dest base = emit_reg_to_mem sbb_rm8_r8 sbb_rm16_to_64_r16_to_64 dest base false

abbrev pub emit_and : Mem → Grp → Bytes
emit_and dest base = emit_reg_to_mem and_rm8_r8 and_rm16_to_64_r16_to_64 dest base false

abbrev pub emit_sub : Mem → Grp → Bytes
emit_sub dest base = emit_reg_to_mem sub_rm8_r8 sub_rm16_to_64_r16_to_64 dest base false

abbrev pub emit_xor : Mem → Grp → Bytes
emit_xor dest base = emit_reg_to_mem xor_rm8_r8 xor_rm16_to_64_r16_to_64 dest base false

abbrev pub emit_cmp : Mem → Grp → Bytes
emit_cmp dest base = emit_reg_to_mem cmp_rm8_r8 cmp_rm16_to_64_r16_to_64 dest base false

abbrev pub emit_test : Mem → Grp → Bytes
emit_test dest base = emit_reg_to_mem test_rm8_imm8 test_rm16_to_64_r16_to_64 dest base false

abbrev pub emit_mov : Mem → Grp → Bytes
emit_mov dest base = emit_reg_to_mem mov_rm8_r8 mov_rm16_to_64_r16_to_64 dest base false
