-- ===== src/Asm/Meaning.antt =====
-- src/backend/codegen/x86_64_assembler.hpp: instructions between a register and memory, from their tokens to
-- what the processor reads.
use occult.Common.{
  ℕ, ◌<◌, true, false, some, List, [], ◌∷◌, append-nil, Option, Bytes, All, Yields, yields, ◌≡◌,
  refl, sym, ap, ◌∙◌, arith,
}
use occult.Linker.Link.{find}
use occult.X86.Registers.{Grp}
use occult.X86.Numbering.{bits64, grp_of}
use occult.X86.Memory.{Mem}
use occult.X86.Place.{mem_of, operand_of, is_place}
use occult.X86.Emit.Memory.{emit_reg_to_mem}
use occult.X86.Decoder.{Instruction, decode, extend}
use occult.X86.RoundTrip.Bytes.{is_opcode}
use occult.X86.RoundTrip.Memory.{decode-emit_reg_to_mem}
use occult.Asm.Token.{
  InstrToken, add_tt, or_tt, and_tt, sub_tt, xor_tt, mov_tt, bracket_left_tt, comma_tt,
}
use occult.Asm.Parse.{Tokens}
use occult.Asm.Operands.{
  Reader, with_mem, with_gpr, gpr_comma, mem_comma, source_of_reg, source_of_mem, two_operands,
  emit_arith,
}
use occult.Asm.Instruction.{step, instructions, read_mov}
use occult.Asm.Registers.{is_gpr-token_of}
use occult.Asm.Spelling.{
  Spelled, Address, sign, register_token, address_tokens, place_of, is_address,
}
use occult.Asm.Reading.{parse_mem-address_tokens, parse_gpr-register_token, register-range}

module _ (a : Address) (r : Spelled) (rest : Tokens) where
  abbrev pub to_mem_tokens : Tokens
  to_mem_tokens = sign bracket_left_tt ∷ address_tokens a (sign comma_tt ∷ register_token r ∷ rest)

  abbrev pub to_reg_tokens : Tokens
  to_reg_tokens = register_token r ∷ sign comma_tt ∷ sign bracket_left_tt ∷ address_tokens a rest

  abbrev reg : Grp
  reg = grp_of bits64 r.extended r.field

  module _ (valid : is_address a ≡ true) (small : r.field < 8) (mi : Mem → ℕ → Option Bytes)
      (mr : Mem → Grp → Bytes) (ri : Grp → ℕ → Option Bytes) (rm : Grp → Mem → Bytes)
      (rr : Grp → Grp → Bytes) where
    two_operands-to_mem :
        two_operands mi mr ri rm rr to_mem_tokens ≡ some (mr (mem_of (place_of a)) reg, rest)
    unfolding two_operands mem_comma source_of_mem with_gpr
    two_operands-to_mem =
        rw
          (
            parse_mem-address_tokens a (sign comma_tt ∷ register_token r ∷ rest) valid,
            parse_gpr-register_token r rest small,
            is_gpr-token_of r.width r.extended r.field small,
          )
          (ground (arith, register-range r small))

    two_operands-to_reg :
        two_operands mi mr ri rm rr to_reg_tokens ≡ some (rm reg (mem_of (place_of a)), rest)
    unfolding two_operands gpr_comma source_of_reg with_mem
    two_operands-to_reg =
        rw
          (
            parse_gpr-register_token r
                (sign comma_tt ∷ sign bracket_left_tt ∷ address_tokens a rest) small,
            is_gpr-token_of r.width r.extended r.field small,
            parse_mem-address_tokens a rest valid,
          )
          (ground (arith, register-range r small))

-- A mnemonic with the opcodes of its destinations in memory and in a register.
pub record Mnemonic : Type 0 where
  pub tt : InstrToken
  pub store : ℕ
  pub load : ℕ

abbrev mnemonic : InstrToken → ℕ → ℕ → Mnemonic
mnemonic tt store load = record { tt = tt; store = store; load = load }

abbrev pub mnemonics : List Mnemonic
mnemonics =
    mnemonic add_tt 0x01 0x03
    ∷ mnemonic or_tt 0x09 0x0B
    ∷ mnemonic and_tt 0x21 0x23
    ∷ mnemonic sub_tt 0x29 0x2B
    ∷ mnemonic xor_tt 0x31 0x33
    ∷ mnemonic mov_tt 0x89 0x8B
    ∷ []

module _ (a : Address) (r : Spelled) (rest : Tokens) where
  abbrev pub instruction : ℕ → Instruction
  instruction opcode = record {
    prefixes = [];
    has_rex = true;
    wide = true;
    two_byte = false;
    opcode = opcode;
    reg = extend r.extended r.field;
    rm = operand_of (place_of a);
    rest = [];
  }

  abbrev pub Assembled : ℕ → Bytes × Tokens → Type 0
  Assembled opcode result = (decode result.0 ≡ some (instruction opcode)) × (result.1 ≡ rest)

  -- A mnemonic before a memory operand and a register, and before a register and a memory operand.
  abbrev pub Assembles : Mnemonic → Type 0
  Assembles m =
      (Yields (Assembled m.store) (step (sign m.tt) (to_mem_tokens a r rest)))
      × (Yields (Assembled m.load) (step (sign m.tt) (to_reg_tokens a r rest)))

  module _ (valid : is_address a ≡ true) (small : r.field < 8)
      (index : is_place (place_of a) ≡ true) where
    read_memory :
        (op8 op : ℕ)
        → is_opcode false op ≡ true
        → decode
            (emit_reg_to_mem op8 op (mem_of (place_of a)) (grp_of bits64 r.extended r.field) false)
          ≡ some (instruction op)
    read_memory op8 op opcode =
        ap decode (sym (append-nil _))
        ∙ decode-emit_reg_to_mem bits64 (place_of a) r.extended false r.field op8 op [] small index
            refl opcode

    reads :
        (mi : Mem → ℕ → Option Bytes) (ri : Grp → ℕ → Option Bytes) (rr : Grp → Grp → Bytes)
        (store8 store load8 load : ℕ)
        → is_opcode false store ≡ true
        → is_opcode false load ≡ true
        → (read : Reader)
        → read
          ≡ two_operands mi
              (λ m reg. emit_reg_to_mem store8 store m reg false)
              ri
              (λ reg m. emit_reg_to_mem load8 load m reg false)
              rr
        → (Yields (Assembled store) (read (to_mem_tokens a r rest)))
          × (Yields (Assembled load) (read (to_reg_tokens a r rest)))
    reads mi ri rr store8 store load8 load s l read same =
        rw
          (
            same,
            two_operands-to_mem a r rest valid small mi
                (λ m reg. emit_reg_to_mem store8 store m reg false) ri
                (λ reg m. emit_reg_to_mem load8 load m reg false) rr,
            two_operands-to_reg a r rest valid small mi
                (λ m reg. emit_reg_to_mem store8 store m reg false) ri
                (λ reg m. emit_reg_to_mem load8 load m reg false) rr,
          )
          (yields (read_memory store8 store s, refl), yields (read_memory load8 load l, refl))

    -- Each of add, or, and, sub, xor and mov with a register and a memory operand, in either order,
    -- is assembled, leaves the tokens behind it, and decodes to an instruction on the 64-bit
    -- register and the 64-bit base and index with the numbers of those spelled, of whatever widths
    -- they are, with the scale and the displacement that are spelled. The tokens spell registers,
    -- one of the scales 1, 2, 4 and 8, and a displacement below 2 ^ 31 with a sign, and the index
    -- is not rsp or a part of it.
    pub step-Assembles : All Assembles mnemonics
    unfolding step instructions find emit_arith read_mov
    step-Assembles = (
      reads _ _ _ 0 1 2 3 refl refl _ refl,
      (
        reads _ _ _ 8 9 10 11 refl refl _ refl,
        (
          reads _ _ _ 32 33 34 35 refl refl _ refl,
          (
            reads _ _ _ 40 41 42 43 refl refl _ refl,
            (
              reads _ _ _ 48 49 50 51 refl refl _ refl,
              (reads _ _ _ 0x88 0x89 0x8A 0x8B refl refl _ refl, tt),
            ),
          ),
        ),
      ),
    )
