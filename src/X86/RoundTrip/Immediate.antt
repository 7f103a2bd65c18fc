-- ===== src/X86/RoundTrip/Immediate.antt =====
-- src/backend/codegen/x86_64_writer.hpp: instructions with an immediate, decoded: what the decoder leaves
-- unread is the immediate.
use occult.Common.{
  ℕ, ◌+◌, ◌%◌, ◌<◌, Bool, true, false, Yields, yields, ◌&&◌, some, ◌++◌, [], ◌∷◌, Bytes,
  append-append, ◌≡◌, refl, arith,
}
use occult.Bytes.{little_endian}
use occult.X86.Encoding.{modrm}
use occult.X86.Numbering.{
  Width, bits8, bits16, bits32, bits64, grp_of, size_prefix, is_wide, opcode_of, has_rex,
}
use occult.X86.Place.{
  Place, mem_of, operand_of, rex_b_of, rex_x_of, is_place, base_field, base_field-lt, mem_of-reg,
}
use occult.X86.Emit.Immediate.{Imm, ImmMode, emit_imm}
use occult.X86.Emit.Reg.{
  emit_reg_imm, emit_reg_imm_basic, emit_reg, imm_size_16, imm_size_32, imm_size_64,
}
use occult.X86.Emit.Memory.{emit_mem_imm, imm_size}
use occult.X86.Parts.{low, part_of, names_low, part_of-low}
use occult.X86.Decoder.{
  Head, decode, decode_modrm, decode_operand, decode_head, decode_rex, decode_opcode, extend,
  register,
}
use occult.X86.RoundTrip.Ranges.{
  reg_r8b-grp_of, reg_8-grp_of, reg_r8w-grp_of, reg_16-grp_of, reg_r8d-grp_of, reg_32-grp_of,
  reg_r8q-grp_of, reg_64-grp_of, rebase_register-grp_of,
}
use occult.X86.RoundTrip.Bytes.{
  head_bytes, read_head, is_opcode, decode_head-head_bytes, modrm-mode, modrm-reg, modrm-rm,
}
use occult.X86.RoundTrip.Address.{place_bytes, address_bytes-place_bytes, decode_modrm-place_bytes}
use occult.X86.RoundTrip.Memory.{mem_of-head_bytes, mem_of-ne-rip}

-- The size of the immediate of a width.
abbrev pub size_of : Width → ImmMode → ℕ
size_of bits8 mode = 1
size_of bits16 mode = imm_size_16 mode
size_of bits32 mode = imm_size_32 mode
size_of bits64 mode = imm_size_64 mode

abbrev pub basic_size_of : Width → ℕ
basic_size_of bits8 = 1
basic_size_of bits16 = 2
basic_size_of bits32 = 4
basic_size_of bits64 = 8

-- The low bits of an opcode that a register is added to.
opcode_field :
    (width : Width) (f op8 op : ℕ)
    → f < 8
    → op8 % 8 ≡ 0
    → op % 8 ≡ 0
    → opcode_of width (op8 + f) (op + f) % 8 ≡ f
opcode_field bits8 f op8 op small h8 h = omega arith
opcode_field bits16 f op8 op small h8 h = omega arith
opcode_field bits32 f op8 op small h8 h = omega arith
opcode_field bits64 f op8 op small h8 h = omega arith

module _ (width : Width) (e : Bool) (f op8 op : ℕ) (imm : Imm) (small : f < 8) where
  emit_reg_imm-head_bytes :
      (rm : ℕ) (mode : ImmMode)
      → emit_reg_imm op8 op (grp_of width e f) imm rm mode
        ≡ head_bytes width false false e false op8 op
          ++ (modrm 3 rm f ∷ emit_imm imm (size_of width mode))
  unfolding emit_reg_imm
  emit_reg_imm-head_bytes rm mode =
      rw
        (
          reg_r8b-grp_of,
          reg_8-grp_of,
          reg_r8w-grp_of,
          reg_16-grp_of,
          reg_r8d-grp_of,
          reg_32-grp_of,
          reg_r8q-grp_of,
          reg_64-grp_of,
          rebase_register-grp_of width e f small,
        )
        (elim width [
          | bits8 ↦ ground arith
          | bits16 ↦ ground arith
          | bits32 ↦ ground arith
          | bits64 ↦ ground arith
        ])

  -- An instruction of a group names its operation in the field reg, its register in r/m, and its
  -- immediate has the size of the width and the mode.
  pub decode-emit_reg_imm :
      (rm : ℕ) (mode : ImmMode)
      → is_opcode false (opcode_of width op8 op) ≡ true
      → decode (emit_reg_imm op8 op (grp_of width e f) imm rm mode)
        ≡ some (record {
          prefixes = size_prefix width;
          has_rex = has_rex width e;
          wide = is_wide width;
          two_byte = false;
          opcode = opcode_of width op8 op;
          reg = rm % 8;
          rm = register (extend e f);
          rest = little_endian (size_of width mode) (imm.value);
        })
  unfolding decode decode_modrm decode_operand
  decode-emit_reg_imm rm mode valid =
      let tail = emit_imm imm (size_of width mode) in
      let head =
        decode_head-head_bytes width false false e false op8 op (modrm 3 rm f ∷ tail) valid in
      rw (emit_reg_imm-head_bytes rm mode, head)
        (ground (arith, modrm-mode 3 rm f (omega arith), modrm-reg 3 rm f, modrm-rm 3 rm f))

  emit_reg_imm_basic-head_bytes :
      op8 + f < 256
      → op + f < 256
      → emit_reg_imm_basic op8 op (grp_of width e f) imm
        ≡ head_bytes width false false e false (op8 + f) (op + f)
          ++ emit_imm imm (basic_size_of width)
  unfolding emit_reg_imm_basic
  emit_reg_imm_basic-head_bytes h8 h =
      rw
        (
          reg_r8b-grp_of,
          reg_8-grp_of,
          reg_r8w-grp_of,
          reg_16-grp_of,
          reg_r8d-grp_of,
          reg_32-grp_of,
          reg_r8q-grp_of,
          reg_64-grp_of,
          rebase_register-grp_of width e f small,
        )
        (elim width [
          | bits8 ↦ ground arith
          | bits16 ↦ ground arith
          | bits32 ↦ ground arith
          | bits64 ↦ ground arith
        ])

  abbrev pub move_read : ℕ → Head
  move_read op' = record {
    prefixes = size_prefix width;
    has_rex = has_rex width e;
    w = is_wide width;
    r = false;
    x = false;
    b = e;
    two_byte = false;
    opcode = op';
    rest = little_endian (basic_size_of width) (imm.value);
  }

  -- A move of an immediate to a register is read with the opcode plus the three bits of the
  -- register, and with the prefixes of the width; the low bits of that opcode, extended by REX.B,
  -- name the register, and behind it stands the immediate in the size of the register. The opcodes
  -- are multiples of 8, stay below 256 with the register and are then no prefix bytes, and the
  -- register is none of spl, bpl, sil and dil.
  pub decode_head-emit_reg_imm_basic :
      op8 + f < 256
      → op + f < 256
      → op8 % 8 ≡ 0
      → op % 8 ≡ 0
      → is_opcode false (opcode_of width (op8 + f) (op + f)) ≡ true
      → names_low width (has_rex width e) (extend e f) ≡ true
      → (decode_head [] (emit_reg_imm_basic op8 op (grp_of width e f) imm)
          ≡ some (move_read (opcode_of width (op8 + f) (op + f))))
        × (let h = move_read (opcode_of width (op8 + f) (op + f)) in
            part_of width h.has_rex (extend h.b (h.opcode % 8)) ≡ low width (extend e f))
  decode_head-emit_reg_imm_basic h8 h aligned8 aligned valid names =
      let tail = emit_imm imm (basic_size_of width) in
      (
        rw
            (
              emit_reg_imm_basic-head_bytes h8 h,
              decode_head-head_bytes width false false e false (op8 + f) (op + f) tail valid,
            )
            refl,
        rw (opcode_field width f op8 op small aligned8 aligned) (part_of-low width _ _ names),
      )

-- `push` and `pop` of a register that is not extended have no REX byte, and the opcode holds the register;
-- with an extended register they have the bits REX.R and REX.B, and REX.W for 64 bits.
pub decode_head-emit_reg :
    (width : Width) (e : Bool) (f op8 op : ℕ) (rest : Bytes)
    → f < 8
    → op8 + f < 256
    → op + f < 256
    → is_opcode false (opcode_of width (op8 + f) (op + f)) ≡ true
    → decode_head [] (emit_reg op8 op (grp_of width e f) ++ rest)
      ≡ some (record {
        prefixes = size_prefix width;
        has_rex = e;
        w = is_wide width && e;
        r = e;
        x = false;
        b = e;
        two_byte = false;
        opcode = opcode_of width (op8 + f) (op + f);
        rest = rest;
      })
unfolding emit_reg decode_head decode_rex decode_opcode
decode_head-emit_reg width e f op8 op rest small h8 h valid =
    rw
      (
        reg_r8b-grp_of,
        reg_8-grp_of,
        reg_r8w-grp_of,
        reg_16-grp_of,
        reg_r8d-grp_of,
        reg_32-grp_of,
        reg_r8q-grp_of,
        reg_64-grp_of,
        rebase_register-grp_of width e f small,
      )
      (elim width [
        | bits8 ↦ ground arith
        | bits16 ↦ ground arith
        | bits32 ↦ ground arith
        | bits64 ↦ ground arith
      ])

-- An operation on an immediate and memory in 64-bit registers is encoded without an exception:
-- decoding the bytes gives the base, the index, the scale and the displacement, the number of the
-- operation in the low bits of reg, and leaves the immediate, in the size of its mode. The index is
-- not rsp, the displacement has 32 bits and the opcode is no prefix byte.
pub decode-emit_mem_imm :
    (place : Place) (op8 op rm : ℕ) (imm : Imm) (mode : ImmMode)
    → is_place place ≡ true
    → is_opcode false op ≡ true
    → Yields
        (λ (bs : Bytes).
          decode bs
          ≡ some (record {
            prefixes = [];
            has_rex = true;
            wide = true;
            two_byte = false;
            opcode = op;
            reg = extend (rex_b_of place) (rm % 8);
            rm = operand_of place;
            rest = little_endian (imm_size mode) (imm.value);
          }))
        (emit_mem_imm op8 op (mem_of place) imm rm mode)
unfolding emit_mem_imm decode
decode-emit_mem_imm place op8 op rm imm mode valid opcode =
    let b = rex_b_of place in
    let x = rex_x_of place in
    let f = base_field place in
    let bytes = place_bytes false rm place in
    let tail = emit_imm imm (imm_size mode) in
    let head = decode_head-head_bytes bits64 b x b false op8 op (bytes ++ tail) opcode in
    let body =
      decode_modrm-place_bytes (read_head bits64 b x b false op8 op (bytes ++ tail)) false rm tail
        place valid refl refl in
    let check =
      mem_of-head_bytes bits64 place b false f op8 op (base_field-lt place valid) valid refl in
    rw
      (
        mem_of-ne-rip place valid,
        address_bytes-place_bytes false rm place valid,
        mem_of-reg place,
        check,
      )
      (yields (rw (append-append, head, body) refl))
