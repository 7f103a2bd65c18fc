-- ===== src/X86/Place.antt =====
-- src/backend/codegen/x86_64_writer.hpp: memory operands in 64-bit registers, by the constructor of `mem`
-- that makes them, with what each addresses.
use occult.Common.{ℕ, ◌<◌, Bool, true, false, not, ◌&&◌, ◌==◌, ltb, none, some, ◌≡◌, refl, arith}
use occult.X86.Numbering.{bits64, grp_of}
use occult.X86.Memory.{Mem, mem_reg, mem_disp, mem_scaled, mem_scaled_disp}
use occult.X86.Decoder.{Operand, memory, extend}

-- A register is its extension bit and its field.
pub data Place : Type 0 where
  at : (e : Bool) (f : ℕ) → Place
  offset : (e : Bool) (f d : ℕ) → Place
  indexed : (e : Bool) (f : ℕ) (ei : Bool) (fi s : ℕ) → Place
  indexed_offset : (e : Bool) (f : ℕ) (ei : Bool) (fi s d : ℕ) → Place

abbrev pub mem_of : Place → Mem
mem_of (at e f) = mem_reg (grp_of bits64 e f)
mem_of (offset e f d) = mem_disp (grp_of bits64 e f) d
mem_of (indexed e f ei fi s) = mem_scaled (grp_of bits64 e f) (grp_of bits64 ei fi) s
mem_of (indexed_offset e f ei fi s d) =
    mem_scaled_disp (grp_of bits64 e f) (grp_of bits64 ei fi) s d

abbrev pub operand_of : Place → Operand
operand_of (at e f) = memory (some (extend e f)) none 0
operand_of (offset e f d) = memory (some (extend e f)) none d
operand_of (indexed e f ei fi s) = memory (some (extend e f)) (some (extend ei fi, s)) 0
operand_of (indexed_offset e f ei fi s d) = memory (some (extend e f)) (some (extend ei fi, s)) d

-- The bits of REX that a place needs.
abbrev pub rex_b_of : Place → Bool
rex_b_of (at e f) = e
rex_b_of (offset e f d) = e
rex_b_of (indexed e f ei fi s) = e
rex_b_of (indexed_offset e f ei fi s d) = e

abbrev pub rex_x_of : Place → Bool
rex_x_of (at e f) = false
rex_x_of (offset e f d) = false
rex_x_of (indexed e f ei fi s) = ei
rex_x_of (indexed_offset e f ei fi s d) = ei

abbrev is_index : Bool → ℕ → ℕ → Bool
is_index ei fi s = ltb fi 8 && ltb s 4 && not (not ei && fi == 4)

-- Fields of three bits, a scale of two, a displacement of 32, and an index that is not rsp.
abbrev pub is_place : Place → Bool
is_place (at e f) = ltb f 8
is_place (offset e f d) = ltb f 8 && ltb d 0x100000000
is_place (indexed e f ei fi s) = ltb f 8 && is_index ei fi s
is_place (indexed_offset e f ei fi s d) = ltb f 8 && is_index ei fi s && ltb d 0x100000000

abbrev pub base_field : Place → ℕ
base_field (at e f) = f
base_field (offset e f d) = f
base_field (indexed e f ei fi s) = f
base_field (indexed_offset e f ei fi s d) = f

pub base_field-lt : (place : Place) → is_place place ≡ true → base_field place < 8
base_field-lt (at e f) valid = ground arith
base_field-lt (offset e f d) valid = ground arith
base_field-lt (indexed e f ei fi s) valid = ground arith
base_field-lt (indexed_offset e f ei fi s d) valid = ground arith

pub mem_of-reg :
    (place : Place) → (mem_of place).reg ≡ grp_of bits64 (rex_b_of place) (base_field place)
mem_of-reg (at e f) = refl
mem_of-reg (offset e f d) = refl
mem_of-reg (indexed e f ei fi s) = refl
mem_of-reg (indexed_offset e f ei fi s d) = refl
