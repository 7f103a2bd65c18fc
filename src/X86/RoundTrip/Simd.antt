-- ===== src/X86/RoundTrip/Simd.antt =====
-- src/backend/codegen/x86_64_writer.hpp: instructions on xmm registers, decoded.
use occult.Common.{
  ℕ, ◌+◌, ◌%◌, ◌<◌, Bool, true, false, ◌||◌, leb, some, ◌++◌, [], ◌∷◌, Bytes, append-append, ◌≡◌,
  refl, arith,
}
use occult.X86.Encoding.{modrm, rex_of, rex_bit, rex_w}
use occult.X86.Numbering.{bits64, grp_of}
use occult.X86.Emit.Memory.{needed_rex}
use occult.X86.Emit.Simd.{is_extended, emit_simd128_to_simd128, emit_conversion}
use occult.X86.Ops
use occult.X86.Decoder.{
  decode, decode_modrm, decode_operand, decode_head, is_prefix, extend, instruction, register, Head,
}
use occult.X86.RoundTrip.Ranges.{reg_r8q-grp_of, rebase_register-grp_of}
use occult.X86.RoundTrip.Bytes.{decode_head-rex, decode_head-plain, modrm-mode, modrm-reg, modrm-rm}

-- The prefix that chooses the operation: none, or one byte.
abbrev pub is_mandatory : Bytes → Bool
is_mandatory [] = true
is_mandatory (p ∷ []) = is_prefix p
is_mandatory _ = false

decode_head-mandatory :
    (prefix bs : Bytes)
    → is_mandatory prefix ≡ true
    → decode_head [] (prefix ++ bs) ≡ decode_head prefix bs
unfolding decode_head
decode_head-mandatory [] bs valid = refl
decode_head-mandatory (p ∷ []) bs valid = ground arith
decode_head-mandatory (p ∷ q ∷ ps) bs valid = ground arith

-- The bytes that follow the prefix: REX if `r` or `b` is set, 0x0F, the opcode and ModRM.
decode_head-simd :
    (r b : Bool) (op : ℕ) (prefix rest : Bytes)
    → decode_head prefix (needed_rex r false b ++ (0x0F ∷ op ∷ rest))
      ≡ some (record {
        prefixes = prefix;
        has_rex = r || b;
        w = false;
        r = r;
        x = false;
        b = b;
        two_byte = true;
        opcode = op;
        rest = rest;
      })
decode_head-simd true b op prefix rest = decode_head-rex false true false b true op prefix rest refl
decode_head-simd false true op prefix rest =
    decode_head-rex false false false true true op prefix rest refl
decode_head-simd false false op prefix rest = decode_head-plain true op prefix rest refl

decode_modrm-direct :
    (h : Head) (reg rm : ℕ) (rest : Bytes)
    → reg < 16
    → rm < 16
    → h.r ≡ leb 8 reg
    → h.b ≡ leb 8 rm
    → decode_modrm h (modrm 3 reg rm ∷ rest) ≡ some (instruction h reg (register rm, rest))
unfolding decode_modrm decode_operand
decode_modrm-direct h reg rm rest small small' r b =
    rw (r, b) (ground (arith, modrm-mode 3 reg rm, modrm-reg 3 reg rm, modrm-rm 3 reg rm))

-- An instruction on two xmm registers, behind no prefix or one of 0x66, 0xF2 and 0xF3, is encoded
-- for the first as reg and the second as r/m: decoding the bytes, whatever follows them, gives the
-- prefix, the opcode and both numbers below 16.
pub decode-emit_simd128_to_simd128 :
    (prefix : Bytes) (op dest base : ℕ) (rest : Bytes)
    → is_mandatory prefix ≡ true
    → dest < 16
    → base < 16
    → decode (emit_simd128_to_simd128 prefix op dest base ++ rest)
      ≡ some (record {
        prefixes = prefix;
        has_rex = is_extended dest || is_extended base;
        wide = false;
        two_byte = true;
        opcode = op;
        reg = dest;
        rm = register base;
        rest = rest;
      })
unfolding emit_simd128_to_simd128 decode
decode-emit_simd128_to_simd128 prefix op dest base rest valid h h' =
    let bytes =
      needed_rex (is_extended dest) false (is_extended base)
      ++ (0x0F ∷ op ∷ modrm 3 dest base ∷ rest) in
    let head =
      decode_head-simd (is_extended dest) (is_extended base) op prefix (modrm 3 dest base ∷ rest) in
    rw
      (
        append-append,
        append-append,
        decode_head-mandatory prefix bytes valid,
        head,
        decode_modrm-direct,
      )
      refl

decode_modrm-fields :
    (h : Head) (reg rm : ℕ) (rest : Bytes)
    → decode_modrm h (modrm 3 (reg % 8) (rm % 8) ∷ rest)
      ≡ some (instruction h (extend (h.r) (reg % 8)) (register (extend (h.b) (rm % 8)), rest))
unfolding decode_modrm decode_operand
decode_modrm-fields h reg rm rest = ground (
  arith,
  modrm-mode 3 (reg % 8) (rm % 8),
  modrm-reg 3 (reg % 8) (rm % 8),
  modrm-rm 3 (reg % 8) (rm % 8),
)

decode-emit_conversion :
    (p op reg rm : ℕ) (r b : Bool) (rest : Bytes)
    → is_prefix p ≡ true
    → decode (emit_conversion p op reg r rm b ++ rest)
      ≡ some (record {
        prefixes = p ∷ [];
        has_rex = true;
        wide = true;
        two_byte = true;
        opcode = op;
        reg = extend r (reg % 8);
        rm = register (extend b (rm % 8));
        rest = rest;
      })
unfolding emit_conversion decode
decode-emit_conversion p op reg rm r b rest valid =
    let bytes = modrm 3 (reg % 8) (rm % 8) ∷ rest in
    let rex : (rex_w + rex_bit 4 r + rex_bit 1 b) ≡ rex_of true r false b = ground arith in
    let start = decode_head-mandatory (p ∷ []) (rex_of true r false b ∷ 0x0F ∷ op ∷ bytes) valid in
    let head = decode_head-rex true r false b true op (p ∷ []) bytes refl in
    let h : Head = record {
      prefixes = p ∷ [];
      has_rex = true;
      w = true;
      r = r;
      x = false;
      b = b;
      two_byte = true;
      opcode = op;
      rest = bytes;
    } in
    rw (rex, start, head, decode_modrm-fields h reg rm rest) refl

-- The conversions from a double to an integer register and back name the two registers, and REX.W asks
-- for 64 bits.
pub decode-emit_cvt :
    (e : Bool) (f xmm : ℕ) (rest : Bytes)
    → f < 8
    → xmm < 16
    → (decode (Ops.Simd.emit_cvttsd2si (grp_of bits64 e f) xmm ++ rest)
        ≡ some (record {
          prefixes = 0xF2 ∷ [];
          has_rex = true;
          wide = true;
          two_byte = true;
          opcode = 0x2C;
          reg = extend e f;
          rm = register xmm;
          rest = rest;
        }))
      × (decode (Ops.Simd.emit_cvtsi2sd xmm (grp_of bits64 e f) ++ rest)
          ≡ some (record {
            prefixes = 0xF2 ∷ [];
            has_rex = true;
            wide = true;
            two_byte = true;
            opcode = 0x2A;
            reg = xmm;
            rm = register (extend e f);
            rest = rest;
          }))
decode-emit_cvt e f xmm rest small small' =
    let low : grp_of bits64 e f % 8 ≡ f = rebase_register-grp_of bits64 e f small in
    let high : extend (leb 8 xmm) (xmm % 8) ≡ xmm = ground arith in
    let range = reg_r8q-grp_of bits64 e f small in
    (
      rw (range, decode-emit_conversion, low, high) refl,
      rw (range, decode-emit_conversion, low, high) refl,
    )
