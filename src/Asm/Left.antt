-- ===== src/Asm/Left.antt =====
-- src/backend/codegen/x86_64_assembler.hpp: an operand leaves no more tokens than there are.
use occult.Common.{ℕ, ◌≤◌, Bool, Option, none, some, Bytes, length, arith}
use occult.X86.Registers.{Grp}
use occult.X86.Emit.Immediate.{Imm}
use occult.X86.Memory.{Mem}
use occult.X86.Emit.Simd.{Simd128}
use occult.Asm.Parse.{
  Tokens, consume, parse_signed_imm, parse_disp, parse_scaled, parse_index, parse_gpr, parse_sum,
  parse_mem,
}
use occult.Asm.Operands.{
  with_mem, with_gpr, with_imm, with_xmm, gpr_comma, mem_comma, xmm_comma, source_of_reg,
  source_of_mem, two_operands, emit_arith, emit_single_op, emit_shift, emit_simd_arith,
}

-- How many tokens are left.
unfoldable pub left : {A : Type 0} → Option (A × Tokens) → ℕ
left none = 0
left (some (a, ts)) = length ts

pub parse_signed_imm-left : (ts : Tokens) → left (parse_signed_imm ts) ≤ length ts
unfolding left parse_signed_imm
parse_signed_imm-left ts = ground arith

pub parse_disp-left :
    (n : Bool) (make : ℕ → Mem) (ts : Tokens) → left (parse_disp n make ts) ≤ length ts
unfolding left parse_disp
parse_disp-left n make ts = ground arith

pub parse_gpr-left : (ts : Tokens) → left (parse_gpr ts) ≤ length ts
unfolding left parse_gpr
parse_gpr-left ts = ground arith

pub parse_scaled-left :
    (base index : Grp) (ts : Tokens) → left (parse_scaled base index ts) ≤ length ts
unfolding left parse_scaled
parse_scaled-left base index ts = grind (arith, parse_disp-left)

pub parse_index-left :
    (base index : Grp) (ts : Tokens) → left (parse_index base index ts) ≤ length ts
unfolding left parse_index
parse_index-left base index ts = ground (arith, parse_scaled-left base index (consume ts))

pub parse_sum-left : (base : Grp) (ts : Tokens) → left (parse_sum base ts) ≤ length ts
unfolding left parse_sum
parse_sum-left base ts = grind (arith, parse_disp-left, parse_gpr-left, parse_index-left)

pub parse_mem-left : (ts : Tokens) → left (parse_mem ts) ≤ length ts
unfolding left parse_mem
parse_mem-left ts = grind (arith, parse_disp-left, parse_gpr-left, parse_sum-left)

pub with_mem-left : (emit : Mem → Bytes) (ts : Tokens) → left (with_mem emit ts) ≤ length ts
unfolding left with_mem
with_mem-left emit ts = grind (arith, parse_mem-left)

pub with_gpr-left : (emit : Grp → Bytes) (ts : Tokens) → left (with_gpr emit ts) ≤ length ts
unfolding left with_gpr
with_gpr-left emit ts = grind (arith, parse_gpr-left)

pub with_imm-left : (emit : ℕ → Option Bytes) (ts : Tokens) → left (with_imm emit ts) ≤ length ts
unfolding left with_imm
with_imm-left emit ts = grind (arith, parse_signed_imm-left)

pub with_xmm-left : (emit : Simd128 → Bytes) (ts : Tokens) → left (with_xmm emit ts) ≤ length ts
unfolding left with_xmm
with_xmm-left emit ts = grind (arith)

pub gpr_comma-left : (ts : Tokens) → left (gpr_comma ts) ≤ length ts
unfolding left gpr_comma
gpr_comma-left ts = grind (arith, parse_gpr-left)

pub mem_comma-left : (ts : Tokens) → left (mem_comma ts) ≤ length ts
unfolding left mem_comma
mem_comma-left ts = grind (arith, parse_mem-left)

pub xmm_comma-left : (ts : Tokens) → left (xmm_comma ts) ≤ length ts
unfolding left xmm_comma
xmm_comma-left ts = grind (arith)

pub source_of_reg-left :
    (imm : ℕ → Option Bytes) (mem : Mem → Bytes) (gpr : Grp → Bytes) (ts : Tokens)
    → left (source_of_reg imm mem gpr ts) ≤ length ts
unfolding left source_of_reg
source_of_reg-left imm mem gpr ts = grind (arith, with_imm-left, with_mem-left, with_gpr-left)

pub source_of_mem-left :
    (imm : ℕ → Option Bytes) (gpr : Grp → Bytes) (ts : Tokens)
    → left (source_of_mem imm gpr ts) ≤ length ts
unfolding left source_of_mem
source_of_mem-left imm gpr ts = grind (arith, with_imm-left, with_gpr-left)

pub two_operands-left :
    (mi : Mem → ℕ → Option Bytes) (mr : Mem → Grp → Bytes) (ri : Grp → ℕ → Option Bytes)
    (rm : Grp → Mem → Bytes) (rr : Grp → Grp → Bytes) (ts : Tokens)
    → left (two_operands mi mr ri rm rr ts) ≤ length ts
unfolding left two_operands
two_operands-left mi mr ri rm rr ts =
    grind (arith, mem_comma-left, gpr_comma-left, source_of_mem-left, source_of_reg-left)

pub emit_arith-left :
    (mi : Mem → Imm → Option Bytes) (mr : Mem → Grp → Bytes) (ri : Grp → Imm → Option Bytes)
    (rm : Grp → Mem → Bytes) (rr : Grp → Grp → Bytes) (ts : Tokens)
    → left (emit_arith mi mr ri rm rr ts) ≤ length ts
unfolding emit_arith
emit_arith-left mi mr ri rm rr ts = two_operands-left _ _ _ _ _ ts

pub emit_single_op-left :
    (mem : Mem → Bytes) (gpr : Grp → Bytes) (ts : Tokens)
    → left (emit_single_op mem gpr ts) ≤ length ts
unfolding left emit_single_op
emit_single_op-left mem gpr ts = grind (arith, with_mem-left, with_gpr-left)

pub emit_shift-left :
    (by_cl : Grp → Bytes) (by_imm : Grp → Imm → Bytes) (ts : Tokens)
    → left (emit_shift by_cl by_imm ts) ≤ length ts
unfolding left emit_shift
emit_shift-left by_cl by_imm ts = grind (arith, gpr_comma-left, with_imm-left)

pub emit_simd_arith-left :
    (emit : Simd128 → Simd128 → Bytes) (ts : Tokens) → left (emit_simd_arith emit ts) ≤ length ts
unfolding left emit_simd_arith
emit_simd_arith-left emit ts = grind (arith, xmm_comma-left, with_xmm-left)
