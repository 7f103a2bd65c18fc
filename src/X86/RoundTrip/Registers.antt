-- ===== src/X86/RoundTrip/Registers.antt =====
-- src/backend/codegen/x86_64_writer.hpp: instructions on two registers of one width, decoded.
use occult.Common.{
  ℕ, ◌<◌, Bool, true, false, ◌||◌, some, ◌++◌, [], ◌∷◌, Bytes, append-append, ◌≡◌, arith,
}
use occult.X86.Encoding.{modrm}
use occult.X86.Numbering.{
  Width, bits8, bits16, bits32, bits64, grp_of, size_prefix, is_wide, opcode_of, has_rex,
}
use occult.X86.Emit.Reg.{emit_reg_to_reg}
use occult.X86.Decoder.{decode, decode_modrm, decode_operand, extend, register}
use occult.X86.RoundTrip.Ranges.{
  reg_r8b-grp_of, reg_8-grp_of, reg_r8w-grp_of, reg_16-grp_of, reg_r8d-grp_of, reg_32-grp_of,
  reg_r8q-grp_of, reg_64-grp_of, rebase_register-grp_of,
}
use occult.X86.RoundTrip.Bytes.{
  is_opcode, head_bytes, decode_head-head_bytes, modrm-mode, modrm-reg, modrm-rm,
}

emit_reg_to_reg-head_bytes :
    (width : Width) (e e' two : Bool) (f f' op8 op : ℕ)
    → f < 8
    → f' < 8
    → emit_reg_to_reg op8 op (grp_of width e f) (grp_of width e' f') two
      ≡ head_bytes width e' false e two op8 op ++ (modrm 3 f' f ∷ [])
unfolding emit_reg_to_reg
emit_reg_to_reg-head_bytes width e e' two f f' op8 op h h' =
    let fields = λ (e : Bool) (f : ℕ) (h : f < 8). rebase_register-grp_of width e f h in
    rw
      (
        reg_r8b-grp_of, reg_8-grp_of, reg_r8w-grp_of, reg_16-grp_of, reg_r8d-grp_of, reg_32-grp_of,
        reg_r8q-grp_of, reg_64-grp_of,
      )
      (rw
        (
          reg_r8b-grp_of, reg_8-grp_of, reg_r8w-grp_of, reg_16-grp_of, reg_r8d-grp_of,
          reg_32-grp_of, reg_r8q-grp_of, reg_64-grp_of,
        )
        (rw (fields e f h, fields e' f' h')
          (elim width [
            | bits8 ↦ ground arith
            | bits16 ↦ ground arith
            | bits32 ↦ ground arith
            | bits64 ↦ ground arith
          ])))

-- Two registers of one width are encoded for the first as r/m and the second as reg: decoding the
-- bytes, whatever follows them, gives both numbers, the opcode for the width, and the prefixes of
-- the width. The opcode is no prefix byte, or stands after 0x0F.
pub decode-emit_reg_to_reg :
    (width : Width) (e e' two : Bool) (f f' op8 op : ℕ) (rest : Bytes)
    → f < 8
    → f' < 8
    → is_opcode two (opcode_of width op8 op) ≡ true
    → decode (emit_reg_to_reg op8 op (grp_of width e f) (grp_of width e' f') two ++ rest)
      ≡ some (record {
        prefixes = size_prefix width;
        has_rex = has_rex width (e' || e);
        wide = is_wide width;
        two_byte = two;
        opcode = opcode_of width op8 op;
        reg = extend e' f';
        rm = register (extend e f);
        rest = rest;
      })
unfolding decode decode_modrm decode_operand
decode-emit_reg_to_reg width e e' two f f' op8 op rest h h' valid =
    let head = decode_head-head_bytes width e' false e two op8 op (modrm 3 f' f ∷ rest) valid in
    rw (emit_reg_to_reg-head_bytes width e e' two f f' op8 op h h', append-append, head)
      (ground (arith, modrm-mode 3 f' f (omega arith), modrm-reg 3 f' f, modrm-rm 3 f' f))
