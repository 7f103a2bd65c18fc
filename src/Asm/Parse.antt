-- ===== src/Asm/Parse.antt =====
-- src/backend/codegen/x86_64_assembler.hpp: operands. The tokens from `pos_stream` on are a list, `none` is an
-- exception, also the one of `at` behind the last token.
use occult.Common.{
  ℕ, ◌+◌, ◌-◌, ◌%◌, ◌^◌, Bool, true, false, ◌&&◌, ◌||◌, ◌==◌, ltb, if◌then◌else◌, Option, none,
  some, ◌>>=◌, List, [], ◌∷◌, Bytes, take_while,
}
use occult.Lexer.Maps.{numeric_set}
use occult.Lexer.Number.{digits_value, non_empty}
use occult.X86.Registers.{Grp}
use occult.X86.Memory.{Mem, mem_reg, mem_disp, mem_scaled, mem_scaled_disp}
use occult.X86.Emit.Immediate.{Imm}
use occult.Asm.Token.{
  InstrToken, AssemblerToken, minus_tt, addition_tt, multiplication_tt, bracket_right_tt,
  number_literal_tt,
}
use occult.Asm.Tables.{is_gpr, assembler_token_to_gpr}

abbrev pub Tokens : Type 0
Tokens = List AssemblerToken

abbrev pub peek : Tokens → Option AssemblerToken
peek [] = none
peek (t ∷ ts) = some t

abbrev pub consume : Tokens → Tokens
consume [] = []
consume (t ∷ ts) = ts

-- `if (peek().tt != tt) { throw … } consume();`
abbrev pub expect : InstrToken → Tokens → Option Tokens
expect tt [] = none
expect tt (t ∷ ts) = if t.tt == tt then some ts else none

-- `from_numerical_string` of an integer type whose values are below `limit`, on a lexeme that begins with
-- a digit. Without one the source leaves the value unset, which C++ does not define: it is `none` here.
unfoldable pub from_numerical_string : ℕ → Bytes → Option ℕ
from_numerical_string limit number =
    let digits = take_while numeric_set number in
    let value = digits_value 10 0 digits in
    if non_empty digits && ltb value limit then some value else none

-- The 64-bit and the 32-bit pattern of a number with a sign.
abbrev pub signed64 : Bool → ℕ → ℕ
signed64 negative value = if negative then (2 ^ 64 - value) % 2 ^ 64 else value

abbrev pub signed32 : Bool → ℕ → ℕ
signed32 negative value = if negative then (2 ^ 32 - value) % 2 ^ 32 else value

unfoldable pub parse_signed_imm : Tokens → Option (ℕ × Tokens)
parse_signed_imm ts = do
  t ← peek ts
  let negative = t.tt == minus_tt
  let ts' = if negative then consume ts else ts
  number ← peek ts'
  ts'' ← expect number_literal_tt ts'
  value ← from_numerical_string (2 ^ 63) number.lexeme
  some (signed64 negative value, ts'')

-- `static_cast<std::int32_t>(parse_signed_imm())`
abbrev pub imm32 : ℕ → Imm
imm32 value =
    let low = value % 2 ^ 32 in
    record { size = 4; value = if ltb low (2 ^ 31) then low else low + (2 ^ 64 - 2 ^ 32) }

abbrev pub imm64 : ℕ → Imm
imm64 value = record { size = 8; value = value }

abbrev pub encode_scale : ℕ → ℕ
encode_scale actual =
    if actual == 2 then 1 else if actual == 4 then 2 else if actual == 8 then 3 else 0

-- A displacement and the bracket behind it.
unfoldable pub parse_disp : Bool → (ℕ → Mem) → Tokens → Option (Mem × Tokens)
parse_disp negative make ts = do
  number ← peek ts
  ts' ← expect number_literal_tt ts
  value ← from_numerical_string (2 ^ 31) number.lexeme
  ts'' ← expect bracket_right_tt ts'
  some (make (signed32 negative value), ts'')

-- What may follow `[base + index * scale`.
unfoldable pub parse_scaled : Grp → Grp → Tokens → Option (Mem × Tokens)
parse_scaled base index ts = do
  number ← peek ts
  ts' ← expect number_literal_tt ts
  actual ← from_numerical_string (2 ^ 64) number.lexeme
  let scale = encode_scale actual
  t ← peek ts'
  let offset = parse_disp (t.tt == minus_tt) (mem_scaled_disp base index scale) (consume ts')
  if t.tt == bracket_right_tt
      then some (mem_scaled base index scale, consume ts')
      else if t.tt == addition_tt || t.tt == minus_tt
      then offset
      else none

-- What may follow `[base + index`.
unfoldable pub parse_index : Grp → Grp → Tokens → Option (Mem × Tokens)
parse_index base index ts = do
  t ← peek ts
  let scaled = parse_scaled base index (consume ts)
  if t.tt == bracket_right_tt
      then some (mem_scaled base index 0, consume ts)
      else if t.tt == multiplication_tt
      then scaled
      else none

-- A register, and the tokens behind it.
unfoldable pub parse_gpr : Tokens → Option (Grp × Tokens)
parse_gpr ts = do
  t ← peek ts
  reg ← assembler_token_to_gpr t.tt
  if is_gpr t.tt then some (reg, consume ts) else none

-- What may follow `[base +`.
unfoldable pub parse_sum : Grp → Tokens → Option (Mem × Tokens)
parse_sum base ts = do
  t ← peek ts
  let offset = parse_disp false (mem_disp base) ts
  let index = parse_gpr ts >>= λ r. parse_index base r.0 r.1
  if t.tt == number_literal_tt then offset else if is_gpr t.tt then index else none

unfoldable pub parse_mem : Tokens → Option (Mem × Tokens)
parse_mem ts = do
  base ← parse_gpr ts
  t ← peek base.1
  let rest = consume base.1
  let below = parse_disp true (mem_disp base.0) rest
  let sum = parse_sum base.0 rest
  if t.tt == bracket_right_tt
      then some (mem_reg base.0, rest)
      else if t.tt == minus_tt
      then below
      else if t.tt == addition_tt
      then sum
      else none
