-- ===== src/X86/Numbering.antt =====
-- src/backend/codegen/x86_64_defs.hpp: the registers of the enumeration `grp` by their width, the bit that
-- REX adds to their number, and the three bits that ModRM and SIB hold.
use occult.Common.{ℕ, ◌+◌, Bytes, [], ◌∷◌, Bool, true, false, if◌then◌else◌}
use occult.X86.Registers.{Grp, rax, r8, eax, r8d, ax, r8w, al, r8b}

pub data Width : Type 0 where
  bits8 : Width
  bits16 : Width
  bits32 : Width
  bits64 : Width

abbrev pub grp_of : Width → Bool → ℕ → Grp
grp_of bits8 extended field = (if extended then r8b else al) + field
grp_of bits16 extended field = (if extended then r8w else ax) + field
grp_of bits32 extended field = (if extended then r8d else eax) + field
grp_of bits64 extended field = (if extended then r8 else rax) + field

-- What tells the width of an operation: the prefix 0x66, REX.W, and for bytes another opcode.
abbrev pub size_prefix : Width → Bytes
size_prefix bits16 = 0x66 ∷ []
size_prefix _ = []

abbrev pub is_wide : Width → Bool
is_wide bits64 = true
is_wide _ = false

abbrev pub opcode_of : Width → ℕ → ℕ → ℕ
opcode_of bits8 op8 op = op8
opcode_of _ op8 op = op

-- A 64-bit operation always has a REX byte, the others where a number is extended.
abbrev pub has_rex : Width → Bool → Bool
has_rex bits64 extended = true
has_rex _ extended = extended
