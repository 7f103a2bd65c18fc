-- ===== src/X86/Ops/Reg.antt =====
-- src/backend/codegen/x86_64_writer.hpp: the public methods on one register.
use occult.Common.{false, Bytes}
use occult.X86.Registers.{Grp}
use occult.X86.Emit.Reg.{emit_reg_to_reg, emit_reg, emit_setx_reg8}
use occult.X86.Opcodes.{
  call_rm16_or_32, dec_rm8, inc_rm16_to_64, inc_rm8, jmp_rm16_or_32, mul_ax_al_rm8,
  mul_rdx_rax_rm16_to_64, not_rm16_to_64, not_rm8, pop_r64_or_16, push_r64_or_16, sar_rm16_to_64_cl,
  sar_rm8_cl, setb_rm8, setbe_rm8, setl_rm8, setle_rm8, setnb_rm8, setnbe_rm8, setnl_rm8,
  setnle_rm8, setno_rm8, setnp_rm8, setns_rm8, setnz_rm8, seto_rm8, setp_rm8, sets_rm8, setz_rm8,
  shr_rm16_to_64_cl, shr_rm8_cl,
}

abbrev pub emit_push : Grp → Bytes
emit_push reg = emit_reg push_r64_or_16 push_r64_or_16 reg

abbrev pub emit_pop : Grp → Bytes
emit_pop reg = emit_reg pop_r64_or_16 pop_r64_or_16 reg

abbrev pub emit_not : Grp → Bytes
emit_not reg = emit_reg_to_reg not_rm8 not_rm16_to_64 reg 2 false

abbrev pub emit_neg : Grp → Bytes
emit_neg reg = emit_reg_to_reg not_rm8 not_rm16_to_64 reg 3 false

abbrev pub emit_mul : Grp → Bytes
emit_mul reg = emit_reg_to_reg mul_ax_al_rm8 mul_rdx_rax_rm16_to_64 reg 4 false

abbrev pub emit_imul : Grp → Bytes
emit_imul reg = emit_reg_to_reg mul_ax_al_rm8 mul_rdx_rax_rm16_to_64 reg 5 false

abbrev pub emit_div : Grp → Bytes
emit_div reg = emit_reg_to_reg mul_ax_al_rm8 mul_rdx_rax_rm16_to_64 reg 6 false

abbrev pub emit_idiv : Grp → Bytes
emit_idiv reg = emit_reg_to_reg mul_ax_al_rm8 mul_rdx_rax_rm16_to_64 reg 7 false

abbrev pub emit_inc : Grp → Bytes
emit_inc reg = emit_reg_to_reg inc_rm8 inc_rm16_to_64 reg 0 false

abbrev pub emit_dec : Grp → Bytes
emit_dec reg = emit_reg_to_reg dec_rm8 inc_rm16_to_64 reg 1 false

abbrev pub emit_call : Grp → Bytes
emit_call reg = emit_reg_to_reg call_rm16_or_32 call_rm16_or_32 reg 2 false

abbrev pub emit_jmp : Grp → Bytes
emit_jmp reg = emit_reg_to_reg jmp_rm16_or_32 jmp_rm16_or_32 reg 4 false

abbrev pub emit_seto : Grp → Bytes
emit_seto reg = emit_setx_reg8 seto_rm8 reg

abbrev pub emit_setno : Grp → Bytes
emit_setno reg = emit_setx_reg8 setno_rm8 reg

abbrev pub emit_setb : Grp → Bytes
emit_setb reg = emit_setx_reg8 setb_rm8 reg

abbrev pub emit_setnb : Grp → Bytes
emit_setnb reg = emit_setx_reg8 setnb_rm8 reg

abbrev pub emit_setz : Grp → Bytes
emit_setz reg = emit_setx_reg8 setz_rm8 reg

abbrev pub emit_setnz : Grp → Bytes
emit_setnz reg = emit_setx_reg8 setnz_rm8 reg

abbrev pub emit_setbe : Grp → Bytes
emit_setbe reg = emit_setx_reg8 setbe_rm8 reg

abbrev pub emit_setnbe : Grp → Bytes
emit_setnbe reg = emit_setx_reg8 setnbe_rm8 reg

abbrev pub emit_sets : Grp → Bytes
emit_sets reg = emit_setx_reg8 sets_rm8 reg

abbrev pub emit_setns : Grp → Bytes
emit_setns reg = emit_setx_reg8 setns_rm8 reg

abbrev pub emit_setp : Grp → Bytes
emit_setp reg = emit_setx_reg8 setp_rm8 reg

abbrev pub emit_setnp : Grp → Bytes
emit_setnp reg = emit_setx_reg8 setnp_rm8 reg

abbrev pub emit_setl : Grp → Bytes
emit_setl reg = emit_setx_reg8 setl_rm8 reg

abbrev pub emit_setnl : Grp → Bytes
emit_setnl reg = emit_setx_reg8 setnl_rm8 reg

abbrev pub emit_setle : Grp → Bytes
emit_setle reg = emit_setx_reg8 setle_rm8 reg

abbrev pub emit_setnle : Grp → Bytes
emit_setnle reg = emit_setx_reg8 setnle_rm8 reg

abbrev pub emit_shl : Grp → Bytes
emit_shl reg = emit_reg_to_reg shr_rm8_cl shr_rm16_to_64_cl reg 4 false

abbrev pub emit_shr : Grp → Bytes
emit_shr reg = emit_reg_to_reg shr_rm8_cl shr_rm16_to_64_cl reg 5 false

abbrev pub emit_sar : Grp → Bytes
emit_sar reg = emit_reg_to_reg sar_rm8_cl sar_rm16_to_64_cl reg 7 false
