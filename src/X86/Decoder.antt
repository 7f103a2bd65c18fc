-- ===== src/X86/Decoder.antt =====
-- An independent reading of the bytes that the encoder of src/backend/codegen/x86_64_writer.hpp writes:
-- the instruction format of x86-64 in its 64-bit mode, without VEX and without the address-size prefix.
-- Registers are numbers below 16.
use occult.Common.{
  ℕ, ◌+◌, ◌/◌, ◌%◌, Bool, true, false, ◌&&◌, ◌||◌, ◌==◌, ltb, Option, none, some, ◌>>=◌, ◌++◌, [],
  ◌∷◌, Bytes, if◌then◌else◌,
}
use occult.Bytes.{of_little_endian}

-- What the field r/m names. A displacement is its 32-bit pattern.
pub data Operand : Type 0 where
  register : ℕ → Operand
  memory : (base : Option ℕ) → (index : Option (ℕ × ℕ)) → (disp : ℕ) → Operand
  rip_relative : (disp : ℕ) → Operand

-- Legacy prefixes, the bits of REX, the map and the number of the opcode, and the bytes after it.
pub record Head : Type 0 where
  pub prefixes : Bytes
  pub has_rex : Bool
  pub w : Bool
  pub r : Bool
  pub x : Bool
  pub b : Bool
  pub two_byte : Bool
  pub opcode : ℕ
  pub rest : Bytes

pub record Instruction : Type 0 where
  pub prefixes : Bytes
  pub has_rex : Bool
  pub wide : Bool
  pub two_byte : Bool
  pub opcode : ℕ
  pub reg : ℕ
  pub rm : Operand
  pub rest : Bytes

abbrev pub bit : ℕ → ℕ → Bool
bit weight byte = byte / weight % 2 == 1

abbrev pub is_prefix : ℕ → Bool
is_prefix byte = byte == 0x66 || byte == 0xF2 || byte == 0xF3

abbrev pub is_rex : ℕ → Bool
is_rex byte = byte / 16 == 4

abbrev pub head_of : Bytes → Bool → ℕ → Bool → ℕ → Bytes → Head
head_of prefixes has_rex rex two opcode rest = record {
  prefixes = prefixes;
  has_rex = has_rex;
  w = bit 8 rex;
  r = bit 4 rex;
  x = bit 2 rex;
  b = bit 1 rex;
  two_byte = two;
  opcode = opcode;
  rest = rest;
}

abbrev pub decode_second : Bytes → Bool → ℕ → Bytes → Option Head
decode_second prefixes has_rex rex [] = none
decode_second prefixes has_rex rex (op ∷ bs) = some (head_of prefixes has_rex rex true op bs)

unfoldable pub decode_opcode : Bytes → Bool → ℕ → Bytes → Option Head
decode_opcode prefixes has_rex rex [] = none
decode_opcode prefixes has_rex rex (op ∷ bs) =
    if op == 0x0F
    then decode_second prefixes has_rex rex bs
    else some (head_of prefixes has_rex rex false op bs)

abbrev pub starts_with_prefix : Bytes → Bool
starts_with_prefix [] = false
starts_with_prefix (byte ∷ bs) = is_prefix byte

unfoldable pub decode_rex : Bytes → Bytes → Option Head
decode_rex prefixes [] = none
decode_rex prefixes (byte ∷ bs) =
    if is_rex byte
    then decode_opcode prefixes true (byte % 16) bs
    else decode_opcode prefixes false 0 (byte ∷ bs)

-- A REX byte counts only right before the opcode: one before another prefix is ignored.
unfoldable pub decode_head : Bytes → Bytes → Option Head
decode_head prefixes [] = none
decode_head prefixes (byte ∷ bs) =
    let later = decode_head (prefixes ++ (byte ∷ [])) bs in
    let skipped = decode_head prefixes bs in
    if is_prefix byte
    then later
    else if is_rex byte && starts_with_prefix bs
    then skipped
    else decode_rex prefixes (byte ∷ bs)

abbrev pub extend : Bool → ℕ → ℕ
extend flag field = (if flag then 8 else 0) + field

abbrev pub sign_extend8 : ℕ → ℕ
sign_extend8 byte = if ltb byte 128 then byte else byte + 0xFFFFFF00

abbrev pub decode_disp8 : Bytes → Option (ℕ × Bytes)
decode_disp8 [] = none
decode_disp8 (byte ∷ rest) = some (sign_extend8 byte, rest)

abbrev pub decode_disp32 : Bytes → Option (ℕ × Bytes)
decode_disp32 (b0 ∷ b1 ∷ b2 ∷ b3 ∷ rest) = some (of_little_endian (b0 ∷ b1 ∷ b2 ∷ b3 ∷ []), rest)
decode_disp32 _ = none

-- The displacement that a mode asks for, and the bytes after it.
unfoldable pub decode_disp : ℕ → Bool → Bytes → Option (ℕ × Bytes)
decode_disp mode no_base bs =
    if mode == 1
    then decode_disp8 bs
    else if mode == 2 || no_base
    then decode_disp32 bs
    else some (0, bs)

abbrev pub with_disp : (ℕ → Operand) → Option (ℕ × Bytes) → Option (Operand × Bytes)
with_disp operand none = none
with_disp operand (some (disp, rest)) = some (operand disp, rest)

unfoldable pub decode_sib : Head → ℕ → Bytes → Option (Operand × Bytes)
decode_sib h mode [] = none
decode_sib h mode (sib ∷ bs) =
    let index = extend (h.x) (sib / 8 % 8) in
    let no_base = mode == 0 && sib % 8 == 5 in
    let base = if no_base then none else some (extend (h.b) (sib % 8)) in
    let scaled = if index == 4 then none else some (index, sib / 64) in
    with_disp (memory base scaled) (decode_disp mode no_base bs)

unfoldable pub decode_operand : Head → ℕ → ℕ → Bytes → Option (Operand × Bytes)
decode_operand h mode rm bs =
    if mode == 3
    then some (register (extend (h.b) rm), bs)
    else if rm == 4
    then decode_sib h mode bs
    else if mode == 0 && rm == 5
    then with_disp rip_relative (decode_disp 0 true bs)
    else with_disp (memory (some (extend (h.b) rm)) none) (decode_disp mode false bs)

abbrev pub instruction : Head → ℕ → Operand × Bytes → Instruction
instruction h reg (rm, rest) = record {
  prefixes = h.prefixes;
  has_rex = h.has_rex;
  wide = h.w;
  two_byte = h.two_byte;
  opcode = h.opcode;
  reg = reg;
  rm = rm;
  rest = rest;
}

unfoldable pub decode_modrm : Head → Bytes → Option Instruction
decode_modrm h [] = none
decode_modrm h (byte ∷ bs) = do
  operand ← decode_operand h (byte / 64) (byte % 8) bs
  some (instruction h (extend (h.r) (byte / 8 % 8)) operand)

-- An instruction with a ModRM byte.
unfoldable pub decode : Bytes → Option Instruction
decode bs = do h ← decode_head [] bs; decode_modrm h (h.rest)
