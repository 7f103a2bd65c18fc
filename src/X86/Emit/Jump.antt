-- ===== src/X86/Emit/Jump.antt =====
-- src/backend/codegen/x86_64_writer.hpp: jumps to an address of the code. `current` is the size of the
-- code before the jump, and the C++ types bound both addresses.
use occult.Common.{ℕ, ◌+◌, ◌-◌, ◌%◌, ◌^◌, [], ◌∷◌, Bytes}
use occult.Bytes.{little_endian}
use occult.X86.Encoding.{two_byte_opcode_prefix}

-- `target_address - (current_address + length)` in unsigned integers of the given number of bits
abbrev pub relative : ℕ → ℕ → ℕ → ℕ → ℕ
relative bits target current length =
    (target % 2 ^ bits + 2 ^ bits - (current % 2 ^ bits + length) % 2 ^ bits) % 2 ^ bits

unfoldable pub emit_short_jump : ℕ → ℕ → ℕ → Bytes
emit_short_jump opcode target current = opcode ∷ relative 8 target current 2 ∷ []

unfoldable pub emit_near_jump : ℕ → ℕ → ℕ → Bytes
emit_near_jump opcode target current =
    two_byte_opcode_prefix ∷ opcode ∷ little_endian 4 (relative 32 target current 6)

unfoldable pub emit_long_jump : ℕ → ℕ → ℕ → Bytes
emit_long_jump opcode target current = opcode ∷ little_endian 4 (relative 32 target current 5)
