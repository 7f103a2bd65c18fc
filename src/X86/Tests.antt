-- ===== src/X86/Tests.antt =====
-- Runs of the encoder of src/backend/codegen/x86_64_writer.hpp and of the decoder on single instructions, and
-- the theorems at concrete inputs.
use occult.Common.{◌≡◌, refl, none, some, true, false, [], ◌∷◌, ◌++◌, Bytes, All, Yields, arith}
use occult.Bytes.{little_endian, of_little_endian}
use occult.X86.Registers.{rcx, r9, r13, sil, spl}
use occult.X86.Numbering.{bits8, bits32, bits64, grp_of}
use occult.X86.Memory.{mem_reg, mem_disp, mem_scaled_disp}
use occult.X86.Place.{at, offset, indexed_offset, mem_of}
use occult.X86.Ops
use occult.X86.Emit.Immediate.{Imm, no_64}
use occult.X86.Emit.Reg.{emit_reg_to_reg, emit_reg_imm, emit_reg_imm_basic}
use occult.X86.Emit.Memory.{emit_reg_to_mem, emit_mem_imm, check_reg_r2m, address_bytes}
use occult.X86.Emit.Simd.{emit_simd128_to_simd128, emit_simd128_to_mem}
use occult.X86.Emit.Jump.{emit_short_jump, emit_near_jump, emit_long_jump}
use occult.X86.Decoder.{
  decode, decode_head, decode_rex, decode_opcode, decode_modrm, decode_operand, decode_sib,
  decode_disp, memory, register,
}
use occult.X86.Parts.{part_of, low}
use occult.X86.RoundTrip.Registers.{decode-emit_reg_to_reg}
use occult.X86.RoundTrip.Memory.{decode-emit_reg_to_mem}
use occult.X86.RoundTrip.Narrow.{decode-emit_reg_to_mem-narrow}
use occult.X86.RoundTrip.Immediate.{decode_head-emit_reg_imm_basic, decode-emit_mem_imm}
use occult.X86.RoundTrip.Simd.{decode-emit_simd128_to_simd128}
use occult.X86.RoundTrip.SimdMemory.{decode-emit_simd128_to_mem}
use occult.X86.RoundTrip.Jump.{destination, emit_jump-destination}
use occult.X86.RoundTrip.Alu.{
  decode-reg_to_reg, ReadsRegisters, decode-imm_to_reg, ReadsImmediate, operations,
}
use occult.X86.RoundTrip.Unary.{
  decode-conditions, ReadsCondition, conditions, decode-unaries, ReadsUnary, unaries,
}

extended_source : Ops.RegToReg.emit_add rcx r9 ≡ 0x49 ∷ 0x03 ∷ 0xC9 ∷ []
unfolding emit_reg_to_reg occult.X86.Emit.Prefix.reg_r8b occult.X86.Emit.Prefix.reg_8
    occult.X86.Emit.Prefix.reg_r8w occult.X86.Emit.Prefix.reg_16 occult.X86.Emit.Prefix.reg_r8d
    occult.X86.Emit.Prefix.reg_32 occult.X86.Emit.Prefix.reg_r8q occult.X86.Emit.Prefix.reg_64
extended_source = refl

extended_place :
    Ops.RegToMem.emit_mov (mem_scaled_disp r13 r9 2 5) rcx
    ≡ 0x4B ∷ 0x89 ∷ 0x8C ∷ 0x8D ∷ 5 ∷ 0 ∷ 0 ∷ 0 ∷ []
unfolding emit_reg_to_mem check_reg_r2m address_bytes little_endian occult.X86.Emit.Prefix.reg_r8b
    occult.X86.Emit.Prefix.reg_8 occult.X86.Emit.Prefix.reg_r8w occult.X86.Emit.Prefix.reg_16
    occult.X86.Emit.Prefix.reg_r8d occult.X86.Emit.Prefix.reg_32 occult.X86.Emit.Prefix.reg_r8q
    occult.X86.Emit.Prefix.reg_64 occult.X86.Memory.is_stack_ptr occult.X86.Memory.is_stack_base_ptr
    occult.X86.Emit.Memory.needs_rex
extended_place = refl

extended_place_back :
    decode (0x4B ∷ 0x89 ∷ 0x8C ∷ 0x8D ∷ 5 ∷ 0 ∷ 0 ∷ 0 ∷ [])
    ≡ some (record {
      prefixes = [];
      has_rex = true;
      wide = true;
      two_byte = false;
      opcode = 0x89;
      reg = 1;
      rm = memory (some 13) (some (9, 2)) 5;
      rest = [];
    })
unfolding decode decode_head decode_rex decode_opcode decode_modrm decode_operand decode_sib
    decode_disp of_little_endian
extended_place_back = refl

-- `mov rsi's low byte` with spl as source: no REX byte, which the processor reads as `mov dh, ah`.
high_bytes : Ops.RegToReg.emit_mov sil spl ≡ 0x88 ∷ 0xE6 ∷ []
unfolding emit_reg_to_reg occult.X86.Emit.Prefix.reg_r8b occult.X86.Emit.Prefix.reg_8
    occult.X86.Emit.Prefix.reg_r8w occult.X86.Emit.Prefix.reg_16 occult.X86.Emit.Prefix.reg_r8d
    occult.X86.Emit.Prefix.reg_32 occult.X86.Emit.Prefix.reg_r8q occult.X86.Emit.Prefix.reg_64
high_bytes = refl

-- `imul r9, rcx, 5` is written as `imul rcx, rcx, 5`: REX has no bit for the destination.
lost_destination :
    Ops.ImmToReg.emit_imul r9 rcx (record { size = 4; value = 5 })
    ≡ some (0x48 ∷ 0x69 ∷ 0xC9 ∷ 5 ∷ 0 ∷ 0 ∷ 0 ∷ [])
unfolding emit_reg_imm little_endian occult.X86.Emit.Prefix.reg_r8b occult.X86.Emit.Prefix.reg_8
    occult.X86.Emit.Prefix.reg_r8w occult.X86.Emit.Prefix.reg_16 occult.X86.Emit.Prefix.reg_r8d
    occult.X86.Emit.Prefix.reg_32 occult.X86.Emit.Prefix.reg_r8q occult.X86.Emit.Prefix.reg_64
lost_destination = refl

abbrev seven : Imm
seven = record { size = 4; value = 7 }

decode-emit_reg_to_reg_example :
    decode (
      emit_reg_to_reg 0x88 0x89 (grp_of bits64 true 1) (grp_of bits64 false 3) false ++ (0xC3 ∷ []))
    ≡ some (record {
      prefixes = [];
      has_rex = true;
      wide = true;
      two_byte = false;
      opcode = 0x89;
      reg = 3;
      rm = register 9;
      rest = 0xC3 ∷ [];
    })
decode-emit_reg_to_reg_example =
    decode-emit_reg_to_reg bits64 true false false 1 3 0x88 0x89 (0xC3 ∷ []) (omega arith)
      (omega arith) refl

decode-emit_reg_to_mem_example :
    decode (
      emit_reg_to_mem 0x88 0x89
        (mem_of (indexed_offset true 5 true 1 2 8))
        (grp_of bits64 false 1)
        false
      ++ [])
    ≡ some (record {
      prefixes = [];
      has_rex = true;
      wide = true;
      two_byte = false;
      opcode = 0x89;
      reg = 1;
      rm = memory (some 13) (some (9, 2)) 8;
      rest = [];
    })
decode-emit_reg_to_mem_example =
    decode-emit_reg_to_mem bits64 (indexed_offset true 5 true 1 2 8) false false 1 0x88 0x89 []
      (omega arith) refl refl refl

decode-emit_reg_to_mem-narrow_example :
    decode (emit_reg_to_mem 0x88 0x89 (mem_of (at true 1)) (grp_of bits32 false 1) false ++ [])
    ≡ some (record {
      prefixes = [];
      has_rex = false;
      wide = false;
      two_byte = false;
      opcode = 0x89;
      reg = 1;
      rm = memory (some 1) none 0;
      rest = [];
    })
decode-emit_reg_to_mem-narrow_example =
    decode-emit_reg_to_mem-narrow true (at true 1) false false 1 0x88 0x89 [] (omega arith) refl
      refl

-- `mov r10b, 7`
decode_head-emit_reg_imm_basic_example :
    (decode_head [] (emit_reg_imm_basic 0xB0 0xB8 (grp_of bits8 true 2) seven)
      ≡ some (record {
        prefixes = [];
        has_rex = true;
        w = false;
        r = false;
        x = false;
        b = true;
        two_byte = false;
        opcode = 0xB2;
        rest = little_endian 1 7;
      }))
    × (part_of bits8 true 10 ≡ low bits8 10)
decode_head-emit_reg_imm_basic_example =
    decode_head-emit_reg_imm_basic bits8 true 2 0xB0 0xB8 seven (omega arith) (omega arith)
      (omega arith) refl refl refl refl

decode-emit_mem_imm_example :
    Yields
      (λ (bs : Bytes).
        decode bs
        ≡ some (record {
          prefixes = [];
          has_rex = true;
          wide = true;
          two_byte = false;
          opcode = 0xC7;
          reg = 0;
          rm = memory (some 4) none 24;
          rest = little_endian 4 7;
        }))
      (emit_mem_imm 0xC6 0xC7 (mem_of (offset false 4 24)) seven 0 no_64)
decode-emit_mem_imm_example =
    decode-emit_mem_imm (offset false 4 24) 0xC6 0xC7 0 seven no_64 refl refl

decode-emit_simd128_to_simd128_example :
    decode (emit_simd128_to_simd128 (0xF2 ∷ []) 0x58 9 1 ++ [])
    ≡ some (record {
      prefixes = 0xF2 ∷ [];
      has_rex = true;
      wide = false;
      two_byte = true;
      opcode = 0x58;
      reg = 9;
      rm = register 1;
      rest = [];
    })
decode-emit_simd128_to_simd128_example =
    decode-emit_simd128_to_simd128 (0xF2 ∷ []) 0x58 9 1 [] refl (omega arith) (omega arith)

decode-emit_simd128_to_mem_example :
    decode (emit_simd128_to_mem 0x11 9 (mem_of (offset true 1 8)) (0xF2 ∷ []) ++ [])
    ≡ some (record {
      prefixes = 0xF2 ∷ [];
      has_rex = false;
      wide = false;
      two_byte = true;
      opcode = 0x11;
      reg = 1;
      rm = memory (some 1) none 8;
      rest = [];
    })
decode-emit_simd128_to_mem_example =
    decode-emit_simd128_to_mem 0x11 0xF2 (offset true 1 8) true 1 [] refl (omega arith) refl refl
      refl

emit_jump-destination_example :
    (destination 8 1 100 (emit_short_jump 0xE9 20 100) ≡ 20)
    × (destination 32 2 100 (emit_near_jump 0xE9 20 100) ≡ 20)
    × (destination 32 1 100 (emit_long_jump 0xE9 20 100) ≡ 20)
emit_jump-destination_example = emit_jump-destination 0xE9 20 100

-- r9b and bpl, which has a REX byte beside r9b
decode-reg_to_reg_example :
    All (ReadsRegisters bits8 true false 1 5 [] (omega arith) (omega arith) refl refl) operations
decode-reg_to_reg_example =
    decode-reg_to_reg bits8 true false 1 5 [] (omega arith) (omega arith) refl refl

decode-imm_to_reg_example :
    All (ReadsImmediate bits8 false 3 seven (omega arith) refl refl) operations
decode-imm_to_reg_example = decode-imm_to_reg bits8 false 3 seven (omega arith) refl refl

decode-conditions_example : All (ReadsCondition true 1 64 0 [] (omega arith) refl) conditions
decode-conditions_example = decode-conditions true 1 64 0 [] (omega arith) refl

decode-unaries_example : All (ReadsUnary bits64 true 1 [] (omega arith)) unaries
decode-unaries_example = decode-unaries bits64 true 1 [] (omega arith)
