-- ===== src/X86/Widths.antt =====
-- src/backend/codegen/x86_64_defs.hpp: the narrower parts of a 64-bit register.
use occult.Common.{ℕ, ◌<◌, Bool, false, none, some, ◌≡◌, arith}
use occult.X86.Registers.{Grp, as_32, as_8, as_16, find_register, is_64}
use occult.X86.Numbering.{bits8, bits16, bits32, bits64, grp_of}

as_32-grp_of : (e : Bool) (f : ℕ) → f < 8 → as_32 (grp_of bits64 e f) ≡ some (grp_of bits32 e f)
unfolding as_32 find_register
as_32-grp_of e f h = ground arith

as_16-grp_of : (e : Bool) (f : ℕ) → f < 8 → as_16 (grp_of bits64 e f) ≡ some (grp_of bits16 e f)
unfolding as_16 find_register
as_16-grp_of e f h = ground arith

as_8-grp_of : (e : Bool) (f : ℕ) → f < 8 → as_8 (grp_of bits64 e f) ≡ some (grp_of bits8 e f)
unfolding as_8 find_register
as_8-grp_of e f h = ground arith

-- The parts of 32, 16 and 8 bits of a 64-bit register are the registers of that width with its number.
pub as_width-grp_of :
    (e : Bool) (f : ℕ)
    → f < 8
    → (as_32 (grp_of bits64 e f) ≡ some (grp_of bits32 e f))
      × ((as_16 (grp_of bits64 e f) ≡ some (grp_of bits16 e f))
          × (as_8 (grp_of bits64 e f) ≡ some (grp_of bits8 e f)))
as_width-grp_of e f h = (as_32-grp_of e f h, (as_16-grp_of e f h, as_8-grp_of e f h))

-- A register that has not 64 bits has none of the parts: the three functions throw.
pub as_width-none :
    (reg : Grp) → is_64 reg ≡ false → (as_32 reg ≡ none) × ((as_16 reg ≡ none) × (as_8 reg ≡ none))
unfolding as_32 as_16 as_8
as_width-none reg h = ground arith
