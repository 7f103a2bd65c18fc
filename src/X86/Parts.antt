-- ===== src/X86/Parts.antt =====
-- The register that a number names at a width, by the instruction format of x86-64. It is read beside the
-- numbers that `X86.Decoder` gives, and models no code of src/backend/codegen/x86_64_writer.hpp.
use occult.Common.{
  ℕ, ◌-◌, Bool, true, ◌&&◌, ◌||◌, not, leb, ltb, if◌then◌else◌, Option, none, some, ◌≡◌, refl,
  arith,
}
use occult.X86.Numbering.{Width, bits8, bits16, bits32, bits64}
use occult.X86.Decoder.{Operand, register, memory, rip_relative}

-- The low bits of a general register, or the bits 8 to 15 of one of the first four: ah, ch, dh and bh.
pub data Part : Type 0 where
  low : Width → ℕ → Part
  second_byte : ℕ → Part

-- Without a REX byte, the numbers 4 to 7 of byte registers name ah, ch, dh and bh, and with one they
-- name spl, bpl, sil and dil.
abbrev pub part_of : Width → Bool → ℕ → Part
part_of bits8 has_rex n =
    if not has_rex && leb 4 n && ltb n 8 then second_byte (n - 4) else low bits8 n
part_of bits16 has_rex n = low bits16 n
part_of bits32 has_rex n = low bits32 n
part_of bits64 has_rex n = low bits64 n

abbrev pub rm_part : Width → Bool → Operand → Option Part
rm_part width has_rex (register n) = some (part_of width has_rex n)
rm_part width has_rex (memory base index disp) = none
rm_part width has_rex (rip_relative disp) = none

-- Whether a number names the low bits: it is not one of spl, bpl, sil and dil without a REX byte.
abbrev pub names_low : Width → Bool → ℕ → Bool
names_low bits8 has_rex n = has_rex || not (leb 4 n && ltb n 8)
names_low bits16 has_rex n = true
names_low bits32 has_rex n = true
names_low bits64 has_rex n = true

pub part_of-low :
    (width : Width) (has_rex : Bool) (n : ℕ)
    → names_low width has_rex n ≡ true
    → part_of width has_rex n ≡ low width n
part_of-low bits8 has_rex n h = ground (arith, h)
part_of-low bits16 has_rex n h = refl
part_of-low bits32 has_rex n h = refl
part_of-low bits64 has_rex n h = refl
