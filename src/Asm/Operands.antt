-- ===== src/Asm/Operands.antt =====
-- src/backend/codegen/x86_64_assembler.hpp: the macros for instructions of one shape. A reader takes the tokens
-- behind the mnemonic and gives the bytes that the encoder appends and the tokens left.
use occult.Common.{ℕ, Bool, ◌||◌, ◌==◌, if◌then◌else◌, Option, none, some, ◌>>=◌, Bytes}
use occult.X86.Registers.{Grp}
use occult.X86.Memory.{Mem}
use occult.X86.Emit.Immediate.{Imm}
use occult.X86.Emit.Simd.{Simd128}
use occult.Asm.Token.{
  InstrToken, AssemblerToken, minus_tt, comma_tt, bracket_left_tt, number_literal_tt,
}
use occult.Asm.Token
use occult.Asm.Tables.{is_gpr, is_xmm, to_simd}
use occult.Asm.Parse.{
  Tokens, peek, consume, expect, parse_signed_imm, imm32, imm64, parse_gpr, parse_mem,
}

abbrev pub Reader : Type 0
Reader = Tokens → Option (Bytes × Tokens)

abbrev pub starts_imm : AssemblerToken → Bool
starts_imm t = t.tt == number_literal_tt || t.tt == minus_tt

abbrev pub emitted : Bytes → Tokens → Option (Bytes × Tokens)
emitted code ts = some (code, ts)

-- `code` and the tokens left, where `code` may throw
abbrev pub emitted_if : Option Bytes → Tokens → Option (Bytes × Tokens)
emitted_if none ts = none
emitted_if (some code) ts = some (code, ts)

-- An operand of each kind, handed to what is emitted for it.
unfoldable pub with_mem : (Mem → Bytes) → Reader
with_mem emit ts = do m ← parse_mem (consume ts); emitted (emit m.0) m.1

unfoldable pub with_gpr : (Grp → Bytes) → Reader
with_gpr emit ts = do r ← parse_gpr ts; emitted (emit r.0) r.1

unfoldable pub with_imm : (ℕ → Option Bytes) → Reader
with_imm emit ts = do imm ← parse_signed_imm ts; emitted_if (emit imm.0) imm.1

-- A register for a token of `is_xmm`, as the messages of the source say.
unfoldable pub with_xmm : (Simd128 → Bytes) → Reader
with_xmm emit ts = do
  t ← peek ts
  if is_xmm t.tt then emitted (emit (to_simd t.tt)) (consume ts) else none

-- A register and the comma behind it.
unfoldable pub gpr_comma : Tokens → Option (Grp × Tokens)
gpr_comma ts = do r ← parse_gpr ts; rest ← expect comma_tt r.1; some (r.0, rest)

unfoldable pub mem_comma : Tokens → Option (Mem × Tokens)
mem_comma ts = do m ← parse_mem (consume ts); rest ← expect comma_tt m.1; some (m.0, rest)

unfoldable pub xmm_comma : Tokens → Option (Simd128 × Tokens)
xmm_comma ts = do
  t ← peek ts
  rest ← expect comma_tt (consume ts)
  if is_xmm t.tt then some (to_simd t.tt, rest) else none

-- A source operand after a register: an immediate, memory or a register.
unfoldable pub source_of_reg : (ℕ → Option Bytes) → (Mem → Bytes) → (Grp → Bytes) → Reader
source_of_reg imm mem gpr ts = do
  t ← peek ts
  let imms = with_imm imm ts
  let mems = with_mem mem ts
  let gprs = with_gpr gpr ts
  if starts_imm t
      then imms
      else if t.tt == bracket_left_tt
      then mems
      else if is_gpr t.tt
      then gprs
      else none

-- A source operand after memory: an immediate or a register.
unfoldable pub source_of_mem : (ℕ → Option Bytes) → (Grp → Bytes) → Reader
source_of_mem imm gpr ts = do
  t ← peek ts
  let imms = with_imm imm ts
  let gprs = with_gpr gpr ts
  if starts_imm t then imms else if is_gpr t.tt then gprs else none

-- The shape of `EMIT_ARITH` and of `mov`, which differ in the immediates.
unfoldable pub two_operands :
    (Mem → ℕ → Option Bytes)
    → (Mem → Grp → Bytes)
    → (Grp → ℕ → Option Bytes)
    → (Grp → Mem → Bytes)
    → (Grp → Grp → Bytes)
    → Reader
two_operands mem_imm mem_reg reg_imm reg_mem reg_reg ts = do
  t ← peek ts
  let to_mem = mem_comma ts >>= λ m. source_of_mem (mem_imm m.0) (mem_reg m.0) m.1
  let to_reg = gpr_comma ts >>= λ r. source_of_reg (reg_imm r.0) (reg_mem r.0) (reg_reg r.0) r.1
  if t.tt == bracket_left_tt then to_mem else if is_gpr t.tt then to_reg else none

unfoldable pub emit_arith :
    (Mem → Imm → Option Bytes)
    → (Mem → Grp → Bytes)
    → (Grp → Imm → Option Bytes)
    → (Grp → Mem → Bytes)
    → (Grp → Grp → Bytes)
    → Reader
emit_arith mem_imm mem_reg reg_imm reg_mem reg_reg =
    two_operands (λ m v. mem_imm m (imm32 v)) mem_reg (λ r v. reg_imm r (imm32 v)) reg_mem reg_reg

-- `EMIT_SINGLE_OP`
unfoldable pub emit_single_op : (Mem → Bytes) → (Grp → Bytes) → Reader
emit_single_op mem gpr ts = do
  t ← peek ts
  let mems = with_mem mem ts
  let gprs = with_gpr gpr ts
  if t.tt == bracket_left_tt then mems else if is_gpr t.tt then gprs else none

-- `EMIT_SHIFT`
unfoldable pub emit_shift : (Grp → Bytes) → (Grp → Imm → Bytes) → Reader
emit_shift by_cl by_imm ts = do
  r ← gpr_comma ts
  t ← peek r.1
  let imms = with_imm (λ v. some (by_imm r.0 (imm64 v))) r.1
  if t.tt == Token.cl
      then emitted (by_cl r.0) (consume r.1)
      else if starts_imm t
      then imms
      else none

-- `EMIT_SIMD_ARITH`
unfoldable pub emit_simd_arith : (Simd128 → Simd128 → Bytes) → Reader
emit_simd_arith emit ts = do dest ← xmm_comma ts; with_xmm (emit dest.0) dest.1
