-- ===== src/Ir.antt =====
-- src/backend/codegen/ir_gen.hpp: the instructions of the intermediate representation.
use occult.Common.{ℕ, Bytes, List}
use occult.Common.Int.{ℤ}

-- `enum ir_opcode`, in the source's order.
pub data IrOpcode : Type 0 where
  null_op op_push op_push_for_ret op_push_single op_store op_load op_add op_div op_mod : IrOpcode
  op_sub op_mul op_imul op_idiv op_imod op_logical_and op_logical_or op_bitwise_and : IrOpcode
  op_bitwise_or op_bitwise_xor op_bitwise_not op_not op_bitwise_lshift : IrOpcode
  op_bitwise_rshift op_ibitwise_rshift op_negate op_negatef32 op_negatef64 op_jmp op_jz : IrOpcode
  op_jnz op_jl op_jle op_jg op_jge op_jb op_jbe op_ja op_jae op_setz op_setnz op_setl : IrOpcode
  op_setle op_setg op_setge op_cmp op_cmpf32 op_cmpf64 op_ret op_call op_syscall : IrOpcode
  op_addf32 op_divf32 op_subf32 op_mulf32 op_modf32 op_addf64 op_divf64 op_subf64 : IrOpcode
  op_mulf64 op_modf64 label op_array_decl op_array_access_element : IrOpcode
  op_array_store_element op_declare_where_to_store op_array_dimensions op_array_size : IrOpcode
  op_decl_array_type op_reference op_dereference op_dereference_assign op_store_at_addr : IrOpcode
  op_mark_for_array_access op_struct_decl op_member_access op_member_store : IrOpcode
  op_struct_load op_struct_store op_push_shellcode op_cast op_bitcast op_asm_code : IrOpcode

-- `ir_operand`, a `std::variant`. Floating-point numbers are their bit patterns.
pub data IrOperand : Type 0 where
  monostate : IrOperand
  int64 int32 int16 int8 : ℤ → IrOperand
  uint64 uint32 uint16 uint8 : ℕ → IrOperand
  float64 float32 : ℕ → IrOperand
  text : Bytes → IrOperand

pub record IrInstr : Type 0 where
  pub op : IrOpcode
  pub operand : IrOperand
  pub type : Bytes

-- `ir_instr(op, operand)`
abbrev pub instr : IrOpcode → IrOperand → IrInstr
instr op operand = record { op = op; operand = operand; type = List.[] }
