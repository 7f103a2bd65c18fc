-- ===== src/X86/RoundTrip/Unary.antt =====
-- src/backend/codegen/x86_64_writer.hpp: instructions on one register, whose field reg is part of the opcode,
-- and the jumps and settings for each condition, decoded.
use occult.Common.{
  ℕ, ◌+◌, ◌<◌, Bool, true, false, some, List, [], ◌∷◌, ◌++◌, Bytes, take, All, append-append, ◌≡◌,
  refl, ap, arith,
}
use occult.X86.Registers.{Grp}
use occult.X86.Encoding.{modrm}
use occult.X86.Numbering.{
  Width, bits8, bits16, bits32, bits64, grp_of, size_prefix, is_wide, opcode_of, has_rex,
}
use occult.X86.Emit.Reg.{emit_reg_to_reg}
use occult.X86.Emit.Jump.{emit_short_jump, emit_near_jump}
use occult.X86.Ops
use occult.X86.Parts.{low, rm_part, names_low, part_of-low}
use occult.X86.Decoder.{Instruction, decode, decode_modrm, decode_operand, extend, register}
use occult.X86.RoundTrip.Ranges.{
  reg_r8b-grp_of, reg_8-grp_of, reg_r8w-grp_of, reg_16-grp_of, reg_r8d-grp_of, reg_32-grp_of,
  reg_r8q-grp_of, reg_64-grp_of, rebase_register-grp_of,
}
use occult.X86.RoundTrip.Bytes.{
  head_bytes, is_opcode, decode_head-head_bytes, modrm-mode, modrm-reg, modrm-rm,
}

module _ (width : Width) (e two : Bool) (f d op8 op : ℕ) (small : f < 8) (digit : d < 8) where
  unary-head_bytes :
      emit_reg_to_reg op8 op (grp_of width e f) (grp_of bits64 false d) two
      ≡ head_bytes width false false e two op8 op ++ (modrm 3 d f ∷ [])
  unfolding emit_reg_to_reg
  unary-head_bytes =
      rw
        (
          reg_r8b-grp_of width e f small,
          reg_8-grp_of width e f small,
          reg_r8w-grp_of width e f small,
          reg_16-grp_of width e f small,
          reg_r8d-grp_of width e f small,
          reg_32-grp_of width e f small,
          reg_r8q-grp_of width e f small,
          reg_64-grp_of width e f small,
          rebase_register-grp_of width e f small,
          rebase_register-grp_of bits64 false d digit,
        )
        (rw
          (
            reg_r8b-grp_of bits64 false d digit,
            reg_8-grp_of bits64 false d digit,
            reg_r8w-grp_of bits64 false d digit,
            reg_16-grp_of bits64 false d digit,
            reg_r8d-grp_of bits64 false d digit,
            reg_32-grp_of bits64 false d digit,
            reg_r8q-grp_of bits64 false d digit,
            reg_64-grp_of bits64 false d digit,
          )
          (elim width [
            | bits8 ↦ ground arith
            | bits16 ↦ ground arith
            | bits32 ↦ ground arith
            | bits64 ↦ ground arith
          ]))

  pub decode-unary :
      (rest : Bytes)
      → is_opcode two (opcode_of width op8 op) ≡ true
      → decode (emit_reg_to_reg op8 op (grp_of width e f) (grp_of bits64 false d) two ++ rest)
        ≡ some (record {
          prefixes = size_prefix width;
          has_rex = has_rex width e;
          wide = is_wide width;
          two_byte = two;
          opcode = opcode_of width op8 op;
          reg = d;
          rm = register (extend e f);
          rest = rest;
        })
  unfolding decode decode_modrm decode_operand
  decode-unary rest valid =
      let head = decode_head-head_bytes width false false e two op8 op (modrm 3 d f ∷ rest) valid in
      rw (unary-head_bytes, append-append, head)
        (ground (arith, modrm-mode 3 d f, modrm-reg 3 d f, modrm-rm 3 d f))

-- A condition by its number, with the methods that jump and that set a byte on it.
pub record Condition : Type 0 where
  pub number : ℕ
  pub short : ℕ → ℕ → Bytes
  pub near : ℕ → ℕ → Bytes
  pub set : Grp → Bytes

abbrev condition : ℕ → (ℕ → ℕ → Bytes) → (ℕ → ℕ → Bytes) → (Grp → Bytes) → Condition
condition n short near set = record { number = n; short = short; near = near; set = set }

-- All but the condition 8, `s`: the opcode of its setting is that of the condition 9.
abbrev pub conditions : List Condition
conditions =
    condition 0 Ops.Short.emit_jo_short Ops.Near.emit_jo_near Ops.Reg.emit_seto
    ∷ condition 1 Ops.Short.emit_jno_short Ops.Near.emit_jno_near Ops.Reg.emit_setno
    ∷ condition 2 Ops.Short.emit_jb_short Ops.Near.emit_jb_near Ops.Reg.emit_setb
    ∷ condition 3 Ops.Short.emit_jnb_short Ops.Near.emit_jnb_near Ops.Reg.emit_setnb
    ∷ condition 4 Ops.Short.emit_jz_short Ops.Near.emit_jz_near Ops.Reg.emit_setz
    ∷ condition 5 Ops.Short.emit_jnz_short Ops.Near.emit_jnz_near Ops.Reg.emit_setnz
    ∷ condition 6 Ops.Short.emit_jbe_short Ops.Near.emit_jbe_near Ops.Reg.emit_setbe
    ∷ condition 7 Ops.Short.emit_jnbe_short Ops.Near.emit_jnbe_near Ops.Reg.emit_setnbe
    ∷ condition 9 Ops.Short.emit_jns_short Ops.Near.emit_jns_near Ops.Reg.emit_setns
    ∷ condition 10 Ops.Short.emit_jp_short Ops.Near.emit_jp_near Ops.Reg.emit_setp
    ∷ condition 11 Ops.Short.emit_jnp_short Ops.Near.emit_jnp_near Ops.Reg.emit_setnp
    ∷ condition 12 Ops.Short.emit_jl_short Ops.Near.emit_jl_near Ops.Reg.emit_setl
    ∷ condition 13 Ops.Short.emit_jnl_short Ops.Near.emit_jnl_near Ops.Reg.emit_setnl
    ∷ condition 14 Ops.Short.emit_jle_short Ops.Near.emit_jle_near Ops.Reg.emit_setle
    ∷ condition 15 Ops.Short.emit_jnle_short Ops.Near.emit_jnle_near Ops.Reg.emit_setnle
    ∷ []

module _ (e : Bool) (f target current : ℕ) (rest : Bytes) (small : f < 8)
    (names : names_low bits8 e (extend e f) ≡ true) where
  abbrev pub setting_read : ℕ → Instruction
  setting_read n = record {
    prefixes = [];
    has_rex = e;
    wide = false;
    two_byte = true;
    opcode = n;
    reg = 0;
    rm = register (extend e f);
    rest = rest;
  }

  -- The instruction, and the byte register that its field r/m names.
  abbrev pub ReadsSetting : ℕ → Bytes → Type 0
  ReadsSetting n bs =
      let i = setting_read n in
      (decode (bs ++ rest) ≡ some i)
      × (rm_part bits8 i.has_rex i.rm ≡ some (low bits8 (extend e f)))

  abbrev pub ReadsCondition : Condition → Type 0
  ReadsCondition c =
      (take 1 (c.short target current) ≡ (0x70 + c.number) ∷ [])
      × ((take 2 (c.near target current) ≡ 0x0F ∷ (0x80 + c.number) ∷ [])
          × ReadsSetting (0x90 + c.number) (c.set (grp_of bits8 e f)))

  reads_set : (n : ℕ) → ReadsSetting n (emit_reg_to_reg n n (grp_of bits8 e f) 0 true)
  reads_set n = (
    decode-unary bits8 e true f 0 n n small (omega arith) rest refl,
    ap some (part_of-low bits8 e _ names),
  )

  -- For each condition but the eighth, the sign, the short jump begins with 0x70 and the near jump
  -- with 0x0F and 0x80 plus the number of the condition, and the setting of a byte register other
  -- than spl, bpl, sil and dil is read with 0x0F and 0x90 plus that number, and r/m names the
  -- register.
  pub decode-conditions : All ReadsCondition conditions
  unfolding emit_short_jump emit_near_jump
  decode-conditions = (
    (refl, (refl, reads_set 144)),
    (
      (refl, (refl, reads_set 145)),
      (
        (refl, (refl, reads_set 146)),
        (
          (refl, (refl, reads_set 147)),
          (
            (refl, (refl, reads_set 148)),
            (
              (refl, (refl, reads_set 149)),
              (
                (refl, (refl, reads_set 150)),
                (
                  (refl, (refl, reads_set 151)),
                  (
                    (refl, (refl, reads_set 153)),
                    (
                      (refl, (refl, reads_set 154)),
                      (
                        (refl, (refl, reads_set 155)),
                        (
                          (refl, (refl, reads_set 156)),
                          (
                            (refl, (refl, reads_set 157)),
                            ((refl, (refl, reads_set 158)), ((refl, (refl, reads_set 159)), tt)),
                          ),
                        ),
                      ),
                    ),
                  ),
                ),
              ),
            ),
          ),
        ),
      ),
    ),
  )

opcode_of-is_opcode :
    (width : Width) (op8 op : ℕ)
    → is_opcode false op8 ≡ true
    → is_opcode false op ≡ true
    → is_opcode false (opcode_of width op8 op) ≡ true
opcode_of-is_opcode bits8 op8 op h8 h = h8
opcode_of-is_opcode bits16 op8 op h8 h = h
opcode_of-is_opcode bits32 op8 op h8 h = h
opcode_of-is_opcode bits64 op8 op h8 h = h

-- An operation on one register by its opcode for bytes and its digit.
pub record Unary : Type 0 where
  pub op8 : ℕ
  pub op : ℕ
  pub digit : ℕ
  pub emit : Grp → Bytes

abbrev unary : ℕ → ℕ → ℕ → (Grp → Bytes) → Unary
unary op8 op d emit = record { op8 = op8; op = op; digit = d; emit = emit }

abbrev pub unaries : List Unary
unaries =
    unary 0xF6 0xF7 2 Ops.Reg.emit_not
    ∷ unary 0xF6 0xF7 3 Ops.Reg.emit_neg
    ∷ unary 0xF6 0xF7 4 Ops.Reg.emit_mul
    ∷ unary 0xF6 0xF7 5 Ops.Reg.emit_imul
    ∷ unary 0xF6 0xF7 6 Ops.Reg.emit_div
    ∷ unary 0xF6 0xF7 7 Ops.Reg.emit_idiv
    ∷ unary 0xFE 0xFF 0 Ops.Reg.emit_inc
    ∷ unary 0xFE 0xFF 1 Ops.Reg.emit_dec
    ∷ unary 0xD2 0xD3 4 Ops.Reg.emit_shl
    ∷ unary 0xD2 0xD3 5 Ops.Reg.emit_shr
    ∷ unary 0xD2 0xD3 7 Ops.Reg.emit_sar
    ∷ []

module _ (width : Width) (e : Bool) (f : ℕ) (rest : Bytes) (small : f < 8) where
  abbrev pub ReadsUnary : Unary → Type 0
  ReadsUnary u =
      decode (u.emit (grp_of width e f) ++ rest)
      ≡ some (record {
        prefixes = size_prefix width;
        has_rex = has_rex width e;
        wide = is_wide width;
        two_byte = false;
        opcode = opcode_of width u.op8 u.op;
        reg = u.digit;
        rm = register (extend e f);
        rest = rest;
      })

  reads_unary :
      (d op8 op : ℕ)
      → d < 8
      → is_opcode false op8 ≡ true
      → is_opcode false op ≡ true
      → decode (emit_reg_to_reg op8 op (grp_of width e f) (grp_of bits64 false d) false ++ rest)
        ≡ some (record {
          prefixes = size_prefix width;
          has_rex = has_rex width e;
          wide = is_wide width;
          two_byte = false;
          opcode = opcode_of width op8 op;
          reg = d;
          rm = register (extend e f);
          rest = rest;
        })
  reads_unary d op8 op digit valid8 valid =
      decode-unary width e false f d op8 op small digit rest
        (opcode_of-is_opcode width op8 op valid8 valid)

  -- Not, neg, mul, imul, div, idiv, inc, dec, and the shifts shl, shr and sar by cl, on a register
  -- of any width, are read with the opcode of their group and their digit as reg.
  pub decode-unaries : All ReadsUnary unaries
  decode-unaries = (
    reads_unary 2 246 247 (omega arith) refl refl,
    (
      reads_unary 3 246 247 (omega arith) refl refl,
      (
        reads_unary 4 246 247 (omega arith) refl refl,
        (
          reads_unary 5 246 247 (omega arith) refl refl,
          (
            reads_unary 6 246 247 (omega arith) refl refl,
            (
              reads_unary 7 246 247 (omega arith) refl refl,
              (
                reads_unary 0 254 255 (omega arith) refl refl,
                (
                  reads_unary 1 254 255 (omega arith) refl refl,
                  (
                    reads_unary 4 210 211 (omega arith) refl refl,
                    (
                      reads_unary 5 210 211 (omega arith) refl refl,
                      (reads_unary 7 210 211 (omega arith) refl refl, tt),
                    ),
                  ),
                ),
              ),
            ),
          ),
        ),
      ),
    ),
  )
