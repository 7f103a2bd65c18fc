-- ===== src/X86/RoundTrip/Memory.antt =====
-- src/backend/codegen/x86_64_writer.hpp: instructions on a register and a memory operand, decoded.
use occult.Common.{
  ℕ, ◌<◌, Bool, true, false, ◌||◌, ◌&&◌, not, ltb, ◌==◌, some, ◌++◌, Bytes, append-append, ◌≡◌,
  refl, arith,
}
use occult.X86.Numbering.{
  Width, bits8, bits16, bits32, bits64, grp_of, size_prefix, is_wide, opcode_of, has_rex,
}
use occult.X86.Memory.{Mem, is_scaled}
use occult.X86.Place.{
  Place, at, offset, indexed, indexed_offset, mem_of, operand_of, rex_b_of, rex_x_of, is_place,
  base_field, base_field-lt, mem_of-reg,
}
use occult.X86.Emit.Memory.{check_reg_r2m, emit_reg_to_mem}
use occult.X86.Emit.Prefix.{reg_r8q}
use occult.X86.RoundTrip.Ranges.{
  reg_r8b-grp_of, reg_8-grp_of, reg_r8w-grp_of, reg_16-grp_of, reg_r8d-grp_of, reg_32-grp_of,
  reg_r8q-grp_of, reg_64-grp_of, needs_rex-grp_of, rebase_register-grp_of,
}
use occult.X86.Decoder.{decode, extend}
use occult.X86.Registers.{rip}
use occult.X86.RoundTrip.Address.{place_bytes, address_bytes-place_bytes, decode_modrm-place_bytes}
use occult.X86.RoundTrip.Bytes.{head_bytes, read_head, is_opcode, decode_head-head_bytes}

-- The registers for which `check_reg_r2m` writes every bit of REX that the operands need: all with a
-- 64-bit register, with a 16-bit or 32-bit one those whose base is not extended, and with an 8-bit one
-- those that need no REX byte.
abbrev pub rex_complete : Width → Bool → ℕ → Bool → Bool → Bool
rex_complete bits64 e f x b = true
rex_complete bits8 e f x b = not (e || x || b) && ltb f 4
rex_complete _ e f x b = not b

-- The branch that the registers of a width reach, for a memory operand in 64-bit registers.
module _ (op8 op : ℕ) (m : Mem) (eb : Bool) (fb : ℕ) (small : fb < 8)
    (dest : m.reg ≡ grp_of bits64 eb fb) where
  check_reg_r2m-head_bytes :
      (width : Width) (x e two : Bool) (f : ℕ)
      → f < 8
      → (is_scaled (m.mode) && reg_r8q (m.index)) ≡ x
      → rex_complete width e f x eb ≡ true
      → check_reg_r2m op8 op m (grp_of width e f) two ≡ head_bytes width e x eb two op8 op
  unfolding check_reg_r2m
  check_reg_r2m-head_bytes width x e two f h index complete =
      rw
        (
          dest, index, needs_rex-grp_of, reg_r8b-grp_of, reg_8-grp_of, reg_r8w-grp_of,
          reg_16-grp_of, reg_r8d-grp_of, reg_32-grp_of, reg_r8q-grp_of, reg_64-grp_of,
        )
        (rw
          (
            reg_r8b-grp_of, reg_8-grp_of, reg_r8w-grp_of, reg_16-grp_of, reg_r8d-grp_of,
            reg_32-grp_of, reg_r8q-grp_of, reg_64-grp_of,
          )
          (elim width [
            | bits8 ↦ ground arith
            | bits16 ↦ ground arith
            | bits32 ↦ ground arith
            | bits64 ↦ ground arith
          ]))

pub mem_of-index :
    (place : Place)
    → is_place place ≡ true
    → (is_scaled ((mem_of place).mode) && reg_r8q ((mem_of place).index)) ≡ rex_x_of place
mem_of-index (at e f) valid = refl
mem_of-index (offset e f d) valid = refl
mem_of-index (indexed e f ei fi s) valid = reg_r8q-grp_of bits64 ei fi (ground arith)
mem_of-index (indexed_offset e f ei fi s d) valid = reg_r8q-grp_of bits64 ei fi (ground arith)

pub mem_of-head_bytes :
    (width : Width) (place : Place) (e two : Bool) (f op8 op : ℕ)
    → f < 8
    → is_place place ≡ true
    → rex_complete width e f (rex_x_of place) (rex_b_of place) ≡ true
    → check_reg_r2m op8 op (mem_of place) (grp_of width e f) two
      ≡ head_bytes width e (rex_x_of place) (rex_b_of place) two op8 op
mem_of-head_bytes width place e two f op8 op h valid complete =
    check_reg_r2m-head_bytes op8 op (mem_of place) (rex_b_of place) (base_field place)
      (base_field-lt place valid) (mem_of-reg place) width (rex_x_of place) e two f h
      (mem_of-index place valid) complete

pub mem_of-ne-rip : (place : Place) → is_place place ≡ true → ((mem_of place).reg == rip) ≡ false
mem_of-ne-rip (at e f) valid = ground arith
mem_of-ne-rip (offset e f d) valid = ground arith
mem_of-ne-rip (indexed e f ei fi s) valid = ground arith
mem_of-ne-rip (indexed_offset e f ei fi s d) valid = ground arith

-- A register and a memory operand in 64-bit registers are encoded for the operand as r/m and the
-- register as reg: decoding the bytes, whatever follows them, gives the number of the register, the
-- base, the index, the scale and the displacement, the opcode and the prefixes of the width. This
-- is for a 64-bit register, for a 16-bit or 32-bit one with a base below r8, and for al, cl, dl and
-- bl with operands that need no REX byte; the index is not rsp, the displacement has 32 bits and
-- the opcode is no prefix byte, or stands after 0x0F.
pub decode-emit_reg_to_mem :
    (width : Width) (place : Place) (e two : Bool) (f op8 op : ℕ) (rest : Bytes)
    → f < 8
    → is_place place ≡ true
    → rex_complete width e f (rex_x_of place) (rex_b_of place) ≡ true
    → is_opcode two (opcode_of width op8 op) ≡ true
    → decode (emit_reg_to_mem op8 op (mem_of place) (grp_of width e f) two ++ rest)
      ≡ some (record {
        prefixes = size_prefix width;
        has_rex = has_rex width (e || rex_x_of place || rex_b_of place);
        wide = is_wide width;
        two_byte = two;
        opcode = opcode_of width op8 op;
        reg = extend e f;
        rm = operand_of place;
        rest = rest;
      })
unfolding emit_reg_to_mem decode
decode-emit_reg_to_mem width place e two f op8 op rest h valid complete opcode =
    let x = rex_x_of place in
    let b = rex_b_of place in
    let bytes = place_bytes true f place in
    let head = decode_head-head_bytes width e x b two op8 op (bytes ++ rest) opcode in
    let tail =
      decode_modrm-place_bytes (read_head width e x b two op8 op (bytes ++ rest)) true f rest place
        valid refl refl in
    rw
      (
        mem_of-ne-rip place valid,
        mem_of-head_bytes width place e two f op8 op h valid complete,
        rebase_register-grp_of width e f h,
        address_bytes-place_bytes true f place valid,
        append-append,
        head,
        tail,
      )
      (ground arith)
