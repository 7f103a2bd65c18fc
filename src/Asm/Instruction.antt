-- ===== src/Asm/Instruction.antt =====
-- src/backend/codegen/x86_64_assembler.hpp: the switch of `assemble` and its loop.
use occult.Common.{
  ℕ, zero, suc, Bool, true, ◌==◌, if◌then◌else◌, Option, none, some, ◌>>=◌, List, [], ◌∷◌, ◌++◌,
  Bytes,
}
use occult.Linker.Link.{find}
use occult.X86.Registers.{Grp}
use occult.X86.Memory.{Mem}
use occult.X86.Emit.Simd.{Simd128}
use occult.X86.Ops
use occult.Asm.Token.{InstrToken, AssemblerToken, comma_tt, bracket_left_tt}
use occult.Asm.Token
use occult.Asm.Tables.{is_gpr, is_xmm, is_gpr8}
use occult.Asm.Parse.{Tokens, peek, consume, imm32, imm64, parse_gpr}
use occult.Asm.Operands.{
  Reader, emitted, starts_imm, with_mem, with_gpr, with_imm, with_xmm, gpr_comma, mem_comma,
  xmm_comma, two_operands, emit_arith, emit_single_op, emit_shift, emit_simd_arith,
}

-- `imul`: one register, or a register, a source and an immediate of 64 bits.
unfoldable pub imul_source : Grp → Reader
imul_source reg ts = do
  t ← peek ts
  let mems = mem_comma ts >>= λ m. with_imm (λ v. Ops.ImmToMem.emit_imul reg m.0 (imm64 v)) m.1
  let regs = gpr_comma ts >>= λ r. with_imm (λ v. Ops.ImmToReg.emit_imul reg r.0 (imm64 v)) r.1
  if t.tt == bracket_left_tt then mems else if is_gpr t.tt then regs else none

unfoldable pub read_imul : Reader
read_imul ts = do
  r ← parse_gpr ts
  t ← peek r.1
  let three = imul_source r.0 (consume r.1)
  if t.tt == comma_tt then three else emitted (Ops.Reg.emit_imul r.0) r.1

unfoldable pub read_lea : Reader
read_lea ts = do
  r ← gpr_comma ts
  t ← peek r.1
  let mems = with_mem (Ops.MemToReg.emit_lea r.0) r.1
  if t.tt == bracket_left_tt then mems else none

-- `movsx` and `movzx`: a source in memory has 8 bits, and one in a register has 16 if it is no register of
-- 8 bits.
unfoldable pub read_extend : (Grp → Mem → Bool → Bytes) → (Grp → Grp → Bool → Bytes) → Reader
read_extend from_mem from_reg ts = do
  r ← gpr_comma ts
  t ← peek r.1
  let mems = with_mem (λ m. from_mem r.0 m true) r.1
  let gprs = with_gpr (λ base. from_reg r.0 base (is_gpr8 t.tt)) r.1
  if t.tt == bracket_left_tt then mems else if is_gpr t.tt then gprs else none

unfoldable pub read_movsxd : Reader
read_movsxd ts = do
  r ← gpr_comma ts
  t ← peek r.1
  let mems = with_mem (Ops.MemToReg.emit_movsxd r.0) r.1
  let gprs = with_gpr (Ops.RegToReg.emit_movsxd r.0) r.1
  if t.tt == bracket_left_tt then mems else if is_gpr t.tt then gprs else none

unfoldable pub movs_source : (Mem → Bytes) → (Simd128 → Bytes) → Reader
movs_source from_mem to_xmm ts = do
  t ← peek ts
  let mems = with_mem from_mem ts
  let xmms = with_xmm to_xmm ts
  if t.tt == bracket_left_tt then mems else if is_xmm t.tt then xmms else none

-- `movss` and `movsd`
unfoldable pub read_movs :
    (Mem → Simd128 → Bytes) → (Simd128 → Mem → Bytes) → (Simd128 → Simd128 → Bytes) → Reader
read_movs to_mem from_mem to_xmm ts = do
  t ← peek ts
  let stored = mem_comma ts >>= λ m. with_xmm (to_mem m.0) m.1
  let loaded = xmm_comma ts >>= λ x. movs_source (from_mem x.0) (to_xmm x.0) x.1
  if t.tt == bracket_left_tt then stored else if is_xmm t.tt then loaded else none

unfoldable pub read_movq : Reader
read_movq ts = do
  t ← peek ts
  let to_xmm = xmm_comma ts >>= λ x. with_gpr (Ops.Simd.emit_movq x.0) x.1
  let to_gpr = gpr_comma ts >>= λ r. with_xmm (Ops.Simd.emit_movq_to_reg r.0) r.1
  if is_xmm t.tt then to_xmm else if is_gpr t.tt then to_gpr else none

unfoldable pub read_push : Reader
read_push ts = do
  t ← peek ts
  let mems = with_mem Ops.OfMem.emit_push ts
  let gprs = with_gpr Ops.Reg.emit_push ts
  let imms = with_imm (λ v. Ops.ImmToReg.emit_push_signed (imm64 v)) ts
  if t.tt == bracket_left_tt
      then mems
      else if is_gpr t.tt
      then gprs
      else if starts_imm t
      then imms
      else none

unfoldable pub read_mov : Reader
read_mov =
    two_operands (λ m v. Ops.ImmToMem.emit_mov m (imm32 v)) Ops.RegToMem.emit_mov
      (λ r v. some (Ops.ImmToReg.emit_mov r (imm64 v))) Ops.MemToReg.emit_mov Ops.RegToReg.emit_mov

-- The cases of the switch, by the token that stands before the operands.
unfoldable pub instructions : List (InstrToken × Reader)
instructions =
    (Token.syscall_tt, emitted Ops.Plain.emit_syscall)
    ∷ (Token.ret_tt, emitted Ops.Plain.emit_ret)
    ∷ (Token.neg_tt, emit_single_op Ops.OfMem.emit_neg Ops.Reg.emit_neg)
    ∷ (Token.not_tt, emit_single_op Ops.OfMem.emit_not Ops.Reg.emit_not)
    ∷ (Token.mul_tt, emit_single_op Ops.OfMem.emit_mul Ops.Reg.emit_mul)
    ∷ (Token.div_tt, emit_single_op Ops.OfMem.emit_div Ops.Reg.emit_div)
    ∷ (Token.idiv_tt, emit_single_op Ops.OfMem.emit_idiv Ops.Reg.emit_idiv)
    ∷ (Token.shl_tt, emit_shift Ops.Reg.emit_shl Ops.ImmToReg.emit_shl)
    ∷ (Token.shr_tt, emit_shift Ops.Reg.emit_shr Ops.ImmToReg.emit_shr)
    ∷ (Token.sar_tt, emit_shift Ops.Reg.emit_sar Ops.ImmToReg.emit_sar)
    ∷ (Token.addss_tt, emit_simd_arith Ops.Simd.emit_addss)
    ∷ (Token.addsd_tt, emit_simd_arith Ops.Simd.emit_addsd)
    ∷ (Token.subss_tt, emit_simd_arith Ops.Simd.emit_subss)
    ∷ (Token.subsd_tt, emit_simd_arith Ops.Simd.emit_subsd)
    ∷ (Token.mulss_tt, emit_simd_arith Ops.Simd.emit_mulss)
    ∷ (Token.mulsd_tt, emit_simd_arith Ops.Simd.emit_mulsd)
    ∷ (Token.divss_tt, emit_simd_arith Ops.Simd.emit_divss)
    ∷ (Token.divsd_tt, emit_simd_arith Ops.Simd.emit_divsd)
    ∷ (Token.imul_tt, read_imul)
    ∷ (Token.call_tt, emit_single_op Ops.OfMem.emit_call Ops.Reg.emit_call)
    ∷ (Token.lea_tt, read_lea)
    ∷ (Token.movsx_tt, read_extend Ops.MemToReg.emit_movsx Ops.RegToReg.emit_movsx)
    ∷ (Token.movzx_tt, read_extend Ops.MemToReg.emit_movzx Ops.RegToReg.emit_movzx)
    ∷ (Token.movsxd_tt, read_movsxd)
    ∷ (
      Token.movss_tt,
      read_movs Ops.Simd.emit_movss_to_mem Ops.Simd.emit_movss_from_mem Ops.Simd.emit_movss,
    )
    ∷ (
      Token.movsd_tt,
      read_movs Ops.Simd.emit_movsd_to_mem Ops.Simd.emit_movsd_from_mem Ops.Simd.emit_movsd,
    )
    ∷ (Token.movq_tt, read_movq)
    ∷ (Token.pop_tt, emit_single_op Ops.OfMem.emit_pop Ops.Reg.emit_pop)
    ∷ (Token.push_tt, read_push)
    ∷ (
      Token.xor_tt,
      emit_arith Ops.ImmToMem.emit_xor Ops.RegToMem.emit_xor Ops.ImmToReg.emit_xor
          Ops.MemToReg.emit_xor Ops.RegToReg.emit_xor,
    )
    ∷ (
      Token.and_tt,
      emit_arith Ops.ImmToMem.emit_and Ops.RegToMem.emit_and Ops.ImmToReg.emit_and
          Ops.MemToReg.emit_and Ops.RegToReg.emit_and,
    )
    ∷ (
      Token.or_tt,
      emit_arith Ops.ImmToMem.emit_or Ops.RegToMem.emit_or Ops.ImmToReg.emit_or Ops.MemToReg.emit_or
          Ops.RegToReg.emit_or,
    )
    ∷ (
      Token.sub_tt,
      emit_arith Ops.ImmToMem.emit_sub Ops.RegToMem.emit_sub Ops.ImmToReg.emit_sub
          Ops.MemToReg.emit_sub Ops.RegToReg.emit_sub,
    )
    ∷ (
      Token.add_tt,
      emit_arith Ops.ImmToMem.emit_add Ops.RegToMem.emit_add Ops.ImmToReg.emit_add
          Ops.MemToReg.emit_add Ops.RegToReg.emit_add,
    )
    ∷ (Token.mov_tt, read_mov)
    ∷ []

-- One turn of the loop: any other token is skipped.
abbrev pub dispatch : Option Reader → Reader
dispatch none ts = emitted [] ts
dispatch (some read) ts = read ts

unfoldable pub step : AssemblerToken → Reader
step instr = dispatch (find instr.tt instructions)

-- What the loop over the tokens comes to: the code, an exception, or no end within the fuel.
pub data Outcome : Type 0 where
  assembled : Bytes → Outcome
  exception : Outcome
  unfinished : Outcome

abbrev pub append_code : Bytes → Outcome → Outcome
append_code front (assembled rest) = assembled (front ++ rest)
append_code front exception = exception
append_code front unfinished = unfinished

-- The loop over the tokens, whose fuel is a bound of their number.
unfoldable pub assemble_tokens : ℕ → Tokens → Outcome
assemble_tokens fuel [] = assembled []
assemble_tokens zero (t ∷ ts) = unfinished
assemble_tokens (suc fuel) (t ∷ ts) = elim (step t ts) [
  | none ↦ exception
  | some r ↦ append_code r.0 (assemble_tokens fuel r.1)
]
