-- ===== src/X86/Ops/ImmToMem.antt =====
-- src/backend/codegen/x86_64_writer.hpp: the public methods on an immediate and memory. The overloads for signed and for unsigned immediates are one
-- definition, and `none` is an exception.
use occult.Common.{◌||◌, Bytes, if◌then◌else◌, Option}
use occult.X86.Registers.{Grp}
use occult.X86.Memory.{Mem}
use occult.X86.Emit.Prefix.{reg_8, reg_r8b, reg_16, reg_r8w}
use occult.X86.Emit.Immediate.{Imm, do_8, do_16, no_64, assert_imm_size}
use occult.X86.Emit.Memory.{emit_mem_imm}
use occult.X86.Opcodes.{
  add_rm8_imm8, add_rm8_to_64_imm16_or_32, imul_r16_to_64_rm16_to_64_imm16_to_32,
  imul_r16_to_64_rm16_to_64_imm8, mov_rm16_to_64_imm16_or_32, mov_rm8_imm8, or_rm8_imm8,
  or_rm8_to_64_imm16_or_32, test_rm16_to_64_imm16_or_32, test_rm8_imm8,
}

abbrev pub emit_imul : Grp → Mem → Imm → Option Bytes
emit_imul dest base imm = assert_imm_size imm (
    emit_mem_imm imul_r16_to_64_rm16_to_64_imm8 imul_r16_to_64_rm16_to_64_imm16_to_32 base imm dest
      no_64)

abbrev pub emit_add : Mem → Imm → Option Bytes
emit_add dest imm =
    assert_imm_size imm (emit_mem_imm add_rm8_imm8 add_rm8_to_64_imm16_or_32 dest imm 0 no_64)

abbrev pub emit_or : Mem → Imm → Option Bytes
emit_or dest imm =
    assert_imm_size imm (emit_mem_imm or_rm8_imm8 or_rm8_to_64_imm16_or_32 dest imm 1 no_64)

abbrev pub emit_adc : Mem → Imm → Option Bytes
emit_adc dest imm =
    assert_imm_size imm (emit_mem_imm or_rm8_imm8 or_rm8_to_64_imm16_or_32 dest imm 2 no_64)

abbrev pub emit_sbb : Mem → Imm → Option Bytes
emit_sbb dest imm =
    assert_imm_size imm (emit_mem_imm or_rm8_imm8 or_rm8_to_64_imm16_or_32 dest imm 3 no_64)

abbrev pub emit_and : Mem → Imm → Option Bytes
emit_and dest imm =
    assert_imm_size imm (emit_mem_imm or_rm8_imm8 or_rm8_to_64_imm16_or_32 dest imm 4 no_64)

abbrev pub emit_sub : Mem → Imm → Option Bytes
emit_sub dest imm =
    assert_imm_size imm (emit_mem_imm or_rm8_imm8 or_rm8_to_64_imm16_or_32 dest imm 5 no_64)

abbrev pub emit_xor : Mem → Imm → Option Bytes
emit_xor dest imm =
    assert_imm_size imm (emit_mem_imm or_rm8_imm8 or_rm8_to_64_imm16_or_32 dest imm 6 no_64)

abbrev pub emit_cmp : Mem → Imm → Option Bytes
emit_cmp dest imm =
    assert_imm_size imm (emit_mem_imm or_rm8_imm8 or_rm8_to_64_imm16_or_32 dest imm 7 no_64)

abbrev pub emit_mov : Mem → Imm → Option Bytes
emit_mov dest imm = assert_imm_size imm (
    if reg_8 (dest.reg) || reg_r8b (dest.reg)
    then emit_mem_imm mov_rm8_imm8 mov_rm16_to_64_imm16_or_32 dest imm 0 do_8
    else if reg_16 (dest.reg) || reg_r8w (dest.reg)
    then emit_mem_imm mov_rm8_imm8 mov_rm16_to_64_imm16_or_32 dest imm 0 do_16
    else emit_mem_imm mov_rm8_imm8 mov_rm16_to_64_imm16_or_32 dest imm 0 no_64)

abbrev pub emit_test : Mem → Imm → Option Bytes
emit_test dest imm =
    assert_imm_size imm (emit_mem_imm test_rm8_imm8 test_rm16_to_64_imm16_or_32 dest imm 1 no_64)
