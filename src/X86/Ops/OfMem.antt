-- ===== src/X86/Ops/OfMem.antt =====
-- src/backend/codegen/x86_64_writer.hpp: the public methods on one memory operand.
use occult.Common.{false, Bytes}
use occult.X86.Memory.{Mem}
use occult.X86.Emit.Memory.{emit_reg_to_mem, emit_setx_mem8}
use occult.X86.Opcodes.{
  call_rm16_or_32, dec_rm8, inc_rm16_to_64, inc_rm8, jmp_rm16_or_32, mul_ax_al_rm8,
  mul_rdx_rax_rm16_to_64, not_rm16_to_64, not_rm8, pop_rm16_to_64, push_rm16_or_32, setb_rm8,
  setbe_rm8, setl_rm8, setle_rm8, setnb_rm8, setnbe_rm8, setnl_rm8, setnle_rm8, setno_rm8,
  setnp_rm8, setns_rm8, setnz_rm8, seto_rm8, setp_rm8, sets_rm8, setz_rm8,
}

abbrev pub emit_pop : Mem → Bytes
emit_pop m = emit_reg_to_mem pop_rm16_to_64 pop_rm16_to_64 m 0 false

abbrev pub emit_not : Mem → Bytes
emit_not m = emit_reg_to_mem not_rm8 not_rm16_to_64 m 2 false

abbrev pub emit_neg : Mem → Bytes
emit_neg m = emit_reg_to_mem not_rm8 not_rm16_to_64 m 3 false

abbrev pub emit_mul : Mem → Bytes
emit_mul m = emit_reg_to_mem mul_ax_al_rm8 mul_rdx_rax_rm16_to_64 m 4 false

abbrev pub emit_imul : Mem → Bytes
emit_imul m = emit_reg_to_mem mul_ax_al_rm8 mul_rdx_rax_rm16_to_64 m 5 false

abbrev pub emit_div : Mem → Bytes
emit_div m = emit_reg_to_mem mul_ax_al_rm8 mul_rdx_rax_rm16_to_64 m 6 false

abbrev pub emit_idiv : Mem → Bytes
emit_idiv m = emit_reg_to_mem mul_ax_al_rm8 mul_rdx_rax_rm16_to_64 m 7 false

abbrev pub emit_inc : Mem → Bytes
emit_inc m = emit_reg_to_mem inc_rm8 inc_rm16_to_64 m 0 false

abbrev pub emit_dec : Mem → Bytes
emit_dec m = emit_reg_to_mem dec_rm8 inc_rm16_to_64 m 1 false

abbrev pub emit_call : Mem → Bytes
emit_call m = emit_reg_to_mem call_rm16_or_32 call_rm16_or_32 m 2 false

abbrev pub emit_jmp : Mem → Bytes
emit_jmp m = emit_reg_to_mem jmp_rm16_or_32 jmp_rm16_or_32 m 4 false

abbrev pub emit_push : Mem → Bytes
emit_push m = emit_reg_to_mem push_rm16_or_32 push_rm16_or_32 m 6 false

abbrev pub emit_seto : Mem → Bytes
emit_seto m = emit_setx_mem8 seto_rm8 m

abbrev pub emit_setno : Mem → Bytes
emit_setno m = emit_setx_mem8 setno_rm8 m

abbrev pub emit_setb : Mem → Bytes
emit_setb m = emit_setx_mem8 setb_rm8 m

abbrev pub emit_setnb : Mem → Bytes
emit_setnb m = emit_setx_mem8 setnb_rm8 m

abbrev pub emit_setz : Mem → Bytes
emit_setz m = emit_setx_mem8 setz_rm8 m

abbrev pub emit_setnz : Mem → Bytes
emit_setnz m = emit_setx_mem8 setnz_rm8 m

abbrev pub emit_setbe : Mem → Bytes
emit_setbe m = emit_setx_mem8 setbe_rm8 m

abbrev pub emit_setnbe : Mem → Bytes
emit_setnbe m = emit_setx_mem8 setnbe_rm8 m

abbrev pub emit_sets : Mem → Bytes
emit_sets m = emit_setx_mem8 sets_rm8 m

abbrev pub emit_setns : Mem → Bytes
emit_setns m = emit_setx_mem8 setns_rm8 m

abbrev pub emit_setp : Mem → Bytes
emit_setp m = emit_setx_mem8 setp_rm8 m

abbrev pub emit_setnp : Mem → Bytes
emit_setnp m = emit_setx_mem8 setnp_rm8 m

abbrev pub emit_setl : Mem → Bytes
emit_setl m = emit_setx_mem8 setl_rm8 m

abbrev pub emit_setnl : Mem → Bytes
emit_setnl m = emit_setx_mem8 setnl_rm8 m

abbrev pub emit_setle : Mem → Bytes
emit_setle m = emit_setx_mem8 setle_rm8 m

abbrev pub emit_setnle : Mem → Bytes
emit_setnle m = emit_setx_mem8 setnle_rm8 m
