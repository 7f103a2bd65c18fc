-- ===== src/X86/RoundTrip/Alu.antt =====
-- src/backend/codegen/x86_64_writer.hpp: the eight operations add, or, adc, sbb, and, sub, xor and cmp, decoded
-- from each kind of operands.
use occult.Common.{
  ℕ, ◌+◌, ◌*◌, ◌<◌, ◌%◌, Bool, true, false, ◌||◌, ◌==◌, Option, some, List, [], ◌∷◌, ◌++◌, Bytes,
  All, ◌≡◌, refl, ap, arith, Yields, yields,
}
use occult.Bytes.{little_endian}
use occult.X86.Registers.{Grp}
use occult.X86.Numbering.{
  Width, bits8, bits16, bits32, bits64, grp_of, size_prefix, is_wide, opcode_of, has_rex,
}
use occult.X86.Memory.{Mem}
use occult.X86.Place.{Place, mem_of, operand_of, is_place}
use occult.X86.Emit.Immediate.{Imm, no_64, assert_imm_size}
use occult.X86.Emit.Reg.{emit_reg_to_reg, emit_reg_imm}
use occult.X86.Emit.Memory.{emit_reg_to_mem}
use occult.X86.Ops
use occult.X86.Decoder.{Instruction, decode, extend, register}
use occult.X86.Parts.{low, part_of, rm_part, names_low, part_of-low}
use occult.X86.RoundTrip.Bytes.{is_opcode}
use occult.X86.RoundTrip.Registers.{decode-emit_reg_to_reg}
use occult.X86.RoundTrip.Memory.{decode-emit_reg_to_mem}
use occult.X86.RoundTrip.Immediate.{decode-emit_reg_imm, size_of}

-- The number of an operation in the opcode and in the field reg, and the methods that encode it.
pub record Operation : Type 0 where
  pub digit : ℕ
  pub reg_to_reg : Grp → Grp → Bytes
  pub reg_to_mem : Mem → Grp → Bytes
  pub mem_to_reg : Grp → Mem → Bytes
  pub imm_to_reg : Grp → Imm → Option Bytes

abbrev operation :
    ℕ
    → (Grp → Grp → Bytes)
    → (Mem → Grp → Bytes)
    → (Grp → Mem → Bytes)
    → (Grp → Imm → Option Bytes)
    → Operation
operation d rr rm mr ri = record {
  digit = d;
  reg_to_reg = rr;
  reg_to_mem = rm;
  mem_to_reg = mr;
  imm_to_reg = ri;
}

abbrev pub operations : List Operation
operations =
    operation 0 Ops.RegToReg.emit_add Ops.RegToMem.emit_add Ops.MemToReg.emit_add
      Ops.ImmToReg.emit_add
    ∷ operation 1 Ops.RegToReg.emit_or Ops.RegToMem.emit_or Ops.MemToReg.emit_or
        Ops.ImmToReg.emit_or
    ∷ operation 2 Ops.RegToReg.emit_adc Ops.RegToMem.emit_adc Ops.MemToReg.emit_adc
        Ops.ImmToReg.emit_adc
    ∷ operation 3 Ops.RegToReg.emit_sbb Ops.RegToMem.emit_sbb Ops.MemToReg.emit_sbb
        Ops.ImmToReg.emit_sbb
    ∷ operation 4 Ops.RegToReg.emit_and Ops.RegToMem.emit_and Ops.MemToReg.emit_and
        Ops.ImmToReg.emit_and
    ∷ operation 5 Ops.RegToReg.emit_sub Ops.RegToMem.emit_sub Ops.MemToReg.emit_sub
        Ops.ImmToReg.emit_sub
    ∷ operation 6 Ops.RegToReg.emit_xor Ops.RegToMem.emit_xor Ops.MemToReg.emit_xor
        Ops.ImmToReg.emit_xor
    ∷ operation 7 Ops.RegToReg.emit_cmp Ops.RegToMem.emit_cmp Ops.MemToReg.emit_cmp
        Ops.ImmToReg.emit_cmp
    ∷ []

-- What the decoder reads for the operation of a digit: the digit in the opcode, as three bits above the
-- kind of the operands, or in the field reg.
module _ (width : Width) (e e' : Bool) (f f' : ℕ) (rest : Bytes) (small : f < 8) (small' : f' < 8)
    (names : names_low width (has_rex width (e || e')) (extend e f) ≡ true)
    (names' : names_low width (has_rex width (e || e')) (extend e' f') ≡ true) where
  abbrev pub registers_read : ℕ → Instruction
  registers_read d = record {
    prefixes = size_prefix width;
    has_rex = has_rex width (e || e');
    wide = is_wide width;
    two_byte = false;
    opcode = opcode_of width (8 * d + 2) (8 * d + 3);
    reg = extend e f;
    rm = register (extend e' f');
    rest = rest;
  }

  -- The instruction, and the registers that its numbers name.
  abbrev pub ReadsRegisters : Operation → Type 0
  ReadsRegisters o =
      let i = registers_read o.digit in
      (decode (o.reg_to_reg (grp_of width e f) (grp_of width e' f') ++ rest) ≡ some i)
      × (part_of width i.has_rex i.reg ≡ low width (extend e f))
      × (rm_part width i.has_rex i.rm ≡ some (low width (extend e' f')))

  reads_registers :
      (d : ℕ)
      → d < 8
      → decode (
          emit_reg_to_reg (8 * d + 2) (8 * d + 3) (grp_of width e' f') (grp_of width e f) false
          ++ rest)
        ≡ some (registers_read d)
  reads_registers d h =
      decode-emit_reg_to_reg width e' e false f' f (8 * d + 2) (8 * d + 3) rest small' small
        (elim width [
          | bits8 ↦ ground arith
          | bits16 ↦ ground arith
          | bits32 ↦ ground arith
          | bits64 ↦ ground arith
        ])

  reads_parts :
      (d : ℕ)
      → d < 8
      → (decode (
            emit_reg_to_reg (8 * d + 2) (8 * d + 3) (grp_of width e' f') (grp_of width e f) false
            ++ rest)
          ≡ some (registers_read d))
        × (part_of width (has_rex width (e || e')) (extend e f) ≡ low width (extend e f))
        × (rm_part width (has_rex width (e || e')) (register (extend e' f'))
            ≡ some (low width (extend e' f')))
  reads_parts d h =
      (reads_registers d h, part_of-low width _ _ names, ap some (part_of-low width _ _ names'))

  -- Each of add, or, adc, sbb, and, sub, xor and cmp on two registers of one width, numbered from
  -- 0, is read with the opcode 8 * number + 3, or 8 * number + 2 for bytes, and with the prefixes
  -- of the width; what reg and r/m name is its destination and its source. None of the two is spl,
  -- bpl, sil or dil, unless the other is one of r8b to r15b.
  pub decode-reg_to_reg : All ReadsRegisters operations
  decode-reg_to_reg = (
    reads_parts 0 (omega arith),
    (
      reads_parts 1 (omega arith),
      (
        reads_parts 2 (omega arith),
        (
          reads_parts 3 (omega arith),
          (
            reads_parts 4 (omega arith),
            (
              reads_parts 5 (omega arith),
              (reads_parts 6 (omega arith), (reads_parts 7 (omega arith), tt)),
            ),
          ),
        ),
      ),
    ),
  )

module _ (place : Place) (e : Bool) (f : ℕ) (rest : Bytes) (small : f < 8)
    (valid : is_place place ≡ true) where
  abbrev pub ReadsMemory : Operation → Type 0
  ReadsMemory o =
      let read : ℕ → Option Instruction = λ opcode. some (record {
        prefixes = [];
        has_rex = true;
        wide = true;
        two_byte = false;
        opcode = opcode;
        reg = extend e f;
        rm = operand_of place;
        rest = rest;
      }) in
      (decode (o.reg_to_mem (mem_of place) (grp_of bits64 e f) ++ rest) ≡ read (8 * o.digit + 1))
      × (decode (o.mem_to_reg (grp_of bits64 e f) (mem_of place) ++ rest) ≡ read (8 * o.digit + 3))

  reads_memory :
      (op8 op : ℕ)
      → is_opcode false op ≡ true
      → decode (emit_reg_to_mem op8 op (mem_of place) (grp_of bits64 e f) false ++ rest)
        ≡ some (record {
          prefixes = [];
          has_rex = true;
          wide = true;
          two_byte = false;
          opcode = op;
          reg = extend e f;
          rm = operand_of place;
          rest = rest;
        })
  reads_memory op8 op opcode =
      decode-emit_reg_to_mem bits64 place e false f op8 op rest small valid refl opcode

  -- Each operation between a 64-bit register and memory in 64-bit registers has the opcode
  -- `8 * digit + 1` for a destination in memory and `8 * digit + 3` for one in the register.
  pub decode-reg_mem : All ReadsMemory operations
  decode-reg_mem = (
    (reads_memory 0 1 refl, reads_memory 2 3 refl),
    (
      (reads_memory 8 9 refl, reads_memory 10 11 refl),
      (
        (reads_memory 16 17 refl, reads_memory 18 19 refl),
        (
          (reads_memory 24 25 refl, reads_memory 26 27 refl),
          (
            (reads_memory 32 33 refl, reads_memory 34 35 refl),
            (
              (reads_memory 40 41 refl, reads_memory 42 43 refl),
              (
                (reads_memory 48 49 refl, reads_memory 50 51 refl),
                ((reads_memory 56 57 refl, reads_memory 58 59 refl), tt),
              ),
            ),
          ),
        ),
      ),
    ),
  )

group_opcode : (width : Width) → is_opcode false (opcode_of width 0x80 0x81) ≡ true
group_opcode bits8 = refl
group_opcode bits16 = refl
group_opcode bits32 = refl
group_opcode bits64 = refl

module _ (width : Width) (e : Bool) (f : ℕ) (imm : Imm) (small : f < 8)
    (fits : (imm.size == 8) ≡ false)
    (names : names_low width (has_rex width e) (extend e f) ≡ true) where
  abbrev pub immediate_read : ℕ → Instruction
  immediate_read d = record {
    prefixes = size_prefix width;
    has_rex = has_rex width e;
    wide = is_wide width;
    two_byte = false;
    opcode = opcode_of width 0x80 0x81;
    reg = d;
    rm = register (extend e f);
    rest = little_endian (size_of width no_64) (imm.value);
  }

  -- The instruction, and the register that its field r/m names.
  abbrev pub ReadsAs : Instruction → Bytes → Type 0
  ReadsAs i bs =
      (decode bs ≡ some i) × (rm_part width i.has_rex i.rm ≡ some (low width (extend e f)))

  abbrev pub ReadsImmediate : Operation → Type 0
  ReadsImmediate o = Yields (ReadsAs (immediate_read o.digit)) (o.imm_to_reg (grp_of width e f) imm)

  reads_immediate :
      (d : ℕ)
      → Yields
          (ReadsAs (immediate_read (d % 8)))
          (assert_imm_size imm (some (emit_reg_imm 0x80 0x81 (grp_of width e f) imm d no_64)))
  reads_immediate d = rw fits (
      yields (
        decode-emit_reg_imm width e f 0x80 0x81 imm small d no_64 (group_opcode width),
        ap some (part_of-low width _ _ names),
      ))

  -- Each of add, or, adc, sbb, and, sub, xor and cmp on a register and an immediate of less than 8
  -- bytes is encoded without an exception, and is read with the opcode 0x81, or 0x80 for bytes, its
  -- number as reg, and an immediate in the size of the register, but at most of four bytes; what
  -- r/m names is its destination, which is none of spl, bpl, sil and dil.
  pub decode-imm_to_reg : All ReadsImmediate operations
  decode-imm_to_reg = (
    reads_immediate 0,
    (
      reads_immediate 1,
      (
        reads_immediate 2,
        (
          reads_immediate 3,
          (reads_immediate 4, (reads_immediate 5, (reads_immediate 6, (reads_immediate 7, tt)))),
        ),
      ),
    ),
  )
