-- ===== src/X86/Emit/Immediate.antt =====
-- src/backend/codegen/x86_64_writer.hpp: immediates. An immediate has the size of its C++ type in bytes
-- and its value extended to 64 bits, by sign or by zeros as its type says.
use occult.Common.{ℕ, Bool, ◌||◌, ◌==◌, ltb, leb, Option, none, if◌then◌else◌, Bytes, ◌-◌, ◌^◌}
use occult.Bytes.{little_endian}

pub record Imm : Type 0 where
  pub size : ℕ
  pub value : ℕ

-- `(static_cast<std::uint64_t>(imm) >> (i * 8)) & 0xFF` for each i below size
abbrev pub emit_imm : Imm → ℕ → Bytes
emit_imm imm size = little_endian size (imm.value)

pub data ImmMode : Type 0 where
  do_8 : ImmMode
  do_16 : ImmMode
  no_64 : ImmMode
  normal : ImmMode

-- `assert_imm_size` for a type of 8 bytes; `none` is the exception.
abbrev pub assert_imm_size : Imm → Option Bytes → Option Bytes
assert_imm_size imm result = if imm.size == 8 then none else result

-- `imm_fits` for the signed and for the unsigned type of the given number of bits below 64. The
-- argument is converted to a signed 64-bit integer.
abbrev pub imm_fits_signed : ℕ → Imm → Bool
imm_fits_signed bits imm =
    ltb (imm.value) (2 ^ (bits - 1)) || leb (2 ^ 64 - 2 ^ (bits - 1)) (imm.value)

abbrev pub imm_fits_unsigned : ℕ → Imm → Bool
imm_fits_unsigned bits imm = ltb (imm.value) (2 ^ bits)
