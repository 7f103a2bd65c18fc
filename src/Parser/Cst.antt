-- ===== src/Parser/Cst.antt =====
-- src/parser/cst.hpp: the kinds of node of the concrete syntax tree, and the nodes of expressions. The
-- functions modelled here make nodes without children, pointers or flags.
use occult.Common.{Bytes}

-- `enum class cst_type`
pub data CstType : Type 0 where
  root block identifier function ifstmt elsestmt elseifstmt loopstmt whilestmt : CstType
  forstmt continuestmt breakstmt returnstmt functionarguments functioncall : CstType
  assignment bool_datatype int8_datatype int16_datatype int32_datatype : CstType
  int64_datatype uint8_datatype uint16_datatype uint32_datatype uint64_datatype : CstType
  float32_datatype float64_datatype string_datatype number_literal float_literal : CstType
  add_operator subtract_operator unary_plus_operator unary_minus_operator : CstType
  multiply_operator division_operator modulo_operator bitwise_and unary_bitwise_not : CstType
  bitwise_or xor_operator bitwise_lshift bitwise_rshift and_operator or_operator : CstType
  unary_not_operator equals_operator not_equals_operator greater_than_operator : CstType
  less_than_operator greater_than_or_equal less_than_or_equal : CstType
  greater_than_or_equal_operator less_than_or_equal_operator callarg comma include : CstType
  stringliteral forcondition foriterexpr charliteral functionargument label array : CstType
  pointer dimensions_count dimension arraybody arrayelem arrayaccess dereference : CstType
  reference expr_start expr_end structure customtype memberaccess generic_expression : CstType
  func_uses_shellcode shellcode cast_to_datatype variadic generic_type enumeration : CstType
  enum_access switchstmt casestmt defaultstmt moduledecl importdecl func_uses_asm : CstType
  asm_code : CstType

-- `cst::new_node<T>(content)`, T given by its `get_type()`.
pub record Node : Type 0 where
  pub type : CstType
  pub content : Bytes

abbrev pub new_node : CstType → Bytes → Node
new_node type content = record { type = type; content = content }
