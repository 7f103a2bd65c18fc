-- ===== src/X86/RoundTrip/Narrow.antt =====
-- src/backend/codegen/x86_64_writer.hpp: a 16-bit or 32-bit register with memory in 64-bit registers, and an
-- operand relative to rip, decoded.
use occult.Common.{
  ℕ, ◌%◌, ◌<◌, Bool, true, false, ◌||◌, ◌&&◌, some, ◌∷◌, ◌++◌, Bytes, append-append, ◌≡◌, refl,
  arith,
}
use occult.Bytes.{little_endian}
use occult.X86.Registers.{rip}
use occult.X86.Encoding.{modrm}
use occult.X86.Numbering.{
  Width, bits8, bits16, bits32, bits64, grp_of, size_prefix, is_wide, opcode_of, has_rex,
}
use occult.X86.Memory.{Mem, mem_disp, is_scaled}
use occult.X86.Place.{
  Place, at, offset, indexed, indexed_offset, mem_of, operand_of, rex_b_of, rex_x_of, is_place,
  base_field, base_field-lt, mem_of-reg,
}
use occult.X86.Emit.Prefix.{reg_r8b, reg_8, reg_r8w, reg_16, reg_r8d, reg_32, reg_r8q, reg_64}
use occult.X86.Emit.Memory.{check_reg_r2m, emit_reg_to_mem, needs_rex}
use occult.X86.Decoder.{decode, decode_modrm, decode_operand, decode_disp, extend, rip_relative}
use occult.X86.RoundTrip.Ranges.{
  reg_r8b-grp_of, reg_8-grp_of, reg_r8w-grp_of, reg_16-grp_of, reg_r8d-grp_of, reg_32-grp_of,
  reg_r8q-grp_of, reg_64-grp_of, needs_rex-grp_of, rebase_register-grp_of,
}
use occult.X86.RoundTrip.Bytes.{
  head_bytes, read_head, is_opcode, decode_head-head_bytes, modrm-mode, modrm-reg, modrm-rm,
}
use occult.X86.RoundTrip.Address.{
  place_bytes, address_bytes-place_bytes, decode_modrm-place_bytes, decode_disp32-little_endian,
}
use occult.X86.RoundTrip.Memory.{mem_of-ne-rip, mem_of-index, rex_complete}

-- 16 or 32 bits
abbrev pub narrow : Bool → Width
narrow true = bits32
narrow false = bits16

module _ (op8 op : ℕ) (m : Mem) (eb : Bool) (fb : ℕ) (small : fb < 8)
    (dest : m.reg ≡ grp_of bits64 eb fb) where
  check_reg_r2m-narrow :
      (b x e two : Bool) (f : ℕ)
      → f < 8
      → (is_scaled (m.mode) && reg_r8q (m.index)) ≡ x
      → check_reg_r2m op8 op m (grp_of (narrow b) e f) two
        ≡ head_bytes (narrow b) e x false two op8 op
  unfolding check_reg_r2m
  check_reg_r2m-narrow b x e two f h index =
      rw
        (
          dest, index, needs_rex-grp_of, reg_r8b-grp_of, reg_8-grp_of, reg_r8w-grp_of,
          reg_16-grp_of, reg_r8d-grp_of, reg_32-grp_of, reg_r8q-grp_of, reg_64-grp_of,
        )
        (rw
          (
            reg_r8b-grp_of, reg_8-grp_of, reg_r8w-grp_of, reg_16-grp_of, reg_r8d-grp_of,
            reg_32-grp_of, reg_r8q-grp_of, reg_64-grp_of,
          )
          (elim b [ true ↦ ground arith | false ↦ ground arith ]))

narrow-mem_of :
    (op8 op : ℕ) (b : Bool) (place : Place) (e two : Bool) (f : ℕ)
    → f < 8
    → is_place place ≡ true
    → check_reg_r2m op8 op (mem_of place) (grp_of (narrow b) e f) two
      ≡ head_bytes (narrow b) e (rex_x_of place) false two op8 op
narrow-mem_of op8 op b place e two f h valid =
    check_reg_r2m-narrow op8 op (mem_of place) (rex_b_of place) (base_field place)
      (base_field-lt place valid) (mem_of-reg place) b (rex_x_of place) e two f h
      (mem_of-index place valid)

-- A place whose base is replaced by the register of the same field below 8.
abbrev pub low_base : Place → Place
low_base (at e f) = at false f
low_base (offset e f d) = offset false f d
low_base (indexed e f ei fi s) = indexed false f ei fi s
low_base (indexed_offset e f ei fi s d) = indexed_offset false f ei fi s d

low_base-place_bytes :
    (reg : ℕ) (place : Place) → place_bytes true reg place ≡ place_bytes true reg (low_base place)
low_base-place_bytes reg (at e f) = refl
low_base-place_bytes reg (offset e f d) = refl
low_base-place_bytes reg (indexed e f ei fi s) = refl
low_base-place_bytes reg (indexed_offset e f ei fi s d) = refl

low_base-IsPlace : (place : Place) → is_place place ≡ true → is_place (low_base place) ≡ true
low_base-IsPlace (at e f) valid = valid
low_base-IsPlace (offset e f d) valid = valid
low_base-IsPlace (indexed e f ei fi s) valid = valid
low_base-IsPlace (indexed_offset e f ei fi s d) valid = valid

low_base-rex :
    (place : Place)
    → (false ≡ rex_b_of (low_base place)) × (rex_x_of place ≡ rex_x_of (low_base place))
low_base-rex (at e f) = (refl, refl)
low_base-rex (offset e f d) = (refl, refl)
low_base-rex (indexed e f ei fi s) = (refl, refl)
low_base-rex (indexed_offset e f ei fi s d) = (refl, refl)

-- A memory operand whose opcode bytes have no bit for the base.
decode-without_b :
    (width : Width) (place : Place) (e two : Bool) (f op8 op : ℕ) (rest : Bytes)
    → f < 8
    → is_place place ≡ true
    → is_opcode two (opcode_of width op8 op) ≡ true
    → check_reg_r2m op8 op (mem_of place) (grp_of width e f) two
      ≡ head_bytes width e (rex_x_of place) false two op8 op
    → decode (emit_reg_to_mem op8 op (mem_of place) (grp_of width e f) two ++ rest)
      ≡ some (record {
        prefixes = size_prefix width;
        has_rex = has_rex width (e || rex_x_of place || false);
        wide = is_wide width;
        two_byte = two;
        opcode = opcode_of width op8 op;
        reg = extend e (f % 8);
        rm = operand_of (low_base place);
        rest = rest;
      })
unfolding emit_reg_to_mem decode
decode-without_b width place e two f op8 op rest h valid opcode check =
    let x = rex_x_of place in
    let low = low_base place in
    let bytes = place_bytes true f low in
    let head = decode_head-head_bytes width e x false two op8 op (bytes ++ rest) opcode in
    let tail =
      decode_modrm-place_bytes (read_head width e x false two op8 op (bytes ++ rest)) true f rest
        low (low_base-IsPlace place valid) (low_base-rex place).0 (low_base-rex place).1 in
    rw
      (
        mem_of-ne-rip place valid,
        check,
        rebase_register-grp_of width e f h,
        address_bytes-place_bytes true f place valid,
        low_base-place_bytes f place,
        append-append,
        head,
        tail,
      )
      refl

-- A 16-bit or 32-bit register with memory in 64-bit registers is read with the base of the same
-- three bits below r8, whatever the base was; the register, the index, the scale and the
-- displacement are kept. The index is not rsp, the displacement has 32 bits and the opcode is no
-- prefix byte, or stands after 0x0F.
pub decode-emit_reg_to_mem-narrow :
    (b : Bool) (place : Place) (e two : Bool) (f op8 op : ℕ) (rest : Bytes)
    → f < 8
    → is_place place ≡ true
    → is_opcode two op ≡ true
    → decode (emit_reg_to_mem op8 op (mem_of place) (grp_of (narrow b) e f) two ++ rest)
      ≡ some (record {
        prefixes = size_prefix (narrow b);
        has_rex = e || rex_x_of place;
        wide = false;
        two_byte = two;
        opcode = op;
        reg = extend e f;
        rm = operand_of (low_base place);
        rest = rest;
      })
decode-emit_reg_to_mem-narrow true place e two f op8 op rest h valid opcode =
    let check = narrow-mem_of op8 op true place e two f h valid in
    ground (arith, decode-without_b bits32 place e two f op8 op rest h valid opcode check)
decode-emit_reg_to_mem-narrow false place e two f op8 op rest h valid opcode =
    let check = narrow-mem_of op8 op false place e two f h valid in
    ground (arith, decode-without_b bits16 place e two f op8 op rest h valid opcode check)

module _ (e two : Bool) (f d op8 op : ℕ) (h : f < 8) where
  rip-head_bytes :
      (width : Width)
      → rex_complete width e f false false ≡ true
      → check_reg_r2m op8 op (mem_disp rip d) (grp_of width e f) two
        ≡ head_bytes width e false false two op8 op
  unfolding check_reg_r2m needs_rex reg_r8b reg_8 reg_r8w reg_16 reg_r8d reg_32 reg_r8q reg_64
  rip-head_bytes bits8 complete = ground arith
  rip-head_bytes bits16 complete = ground arith
  rip-head_bytes bits32 complete = ground arith
  rip-head_bytes bits64 complete = ground arith

-- An operand relative to rip keeps its displacement, and the register its number.
pub decode-emit_reg_to_mem-rip :
    (width : Width) (e two : Bool) (f d op8 op : ℕ) (rest : Bytes)
    → f < 8
    → d < 0x100000000
    → rex_complete width e f false false ≡ true
    → is_opcode two (opcode_of width op8 op) ≡ true
    → decode (emit_reg_to_mem op8 op (mem_disp rip d) (grp_of width e f) two ++ rest)
      ≡ some (record {
        prefixes = size_prefix width;
        has_rex = has_rex width e;
        wide = is_wide width;
        two_byte = two;
        opcode = opcode_of width op8 op;
        reg = extend e f;
        rm = rip_relative d;
        rest = rest;
      })
unfolding emit_reg_to_mem decode decode_modrm decode_operand decode_disp
decode-emit_reg_to_mem-rip width e two f d op8 op rest h bound complete opcode =
    let bytes = modrm 0 f 5 ∷ little_endian 4 d in
    let head = decode_head-head_bytes width e false false two op8 op (bytes ++ rest) opcode in
    rw
      (
        rip-head_bytes e two f d op8 op h width complete,
        rebase_register-grp_of width e f h,
        append-append,
        head,
      )
      (ground (
        arith,
        modrm-mode 0 f 5,
        modrm-reg 0 f 5,
        modrm-rm 0 f 5,
        decode_disp32-little_endian d rest bound,
      ))
