-- ===== src/Lexer/Typenames.antt =====
-- src/lexer/lexer_maps.hpp and src/lexer/lexer.cpp: the names of the types of tokens.
use occult.Common.{
  Bytes, codes, bytes_eq, ◌≡◌, refl, if◌then◌else◌, Option, none, some, List, [], ◌∷◌,
}
use occult.Lexer.Token.{
  TokenType, is_type, tag, whitespace_tt, comment_tt, multiline_comment_start_tt,
  multiline_comment_end_tt, number_literal_tt, string_literal_tt, char_literal_tt, float_literal_tt,
  add_operator_tt, subtract_operator_tt, multiply_operator_tt, division_operator_tt,
  modulo_operator_tt, bitwise_and_tt, unary_bitwise_not_tt, bitwise_or_tt, xor_operator_tt,
  bitwise_lshift_tt, bitwise_rshift_tt, and_operator_tt, or_operator_tt, unary_not_operator_tt,
  equals_operator_tt, not_equals_operator_tt, greater_than_operator_tt, less_than_operator_tt,
  greater_than_or_equal_operator_tt, less_than_or_equal_operator_tt, assignment_tt, add_assign_tt,
  sub_assign_tt, mul_assign_tt, div_assign_tt, mod_assign_tt, and_assign_tt, or_assign_tt,
  xor_assign_tt, lshift_assign_tt, rshift_assign_tt, right_paren_tt, left_paren_tt,
  right_bracket_tt, left_bracket_tt, right_curly_bracket_tt, left_curly_bracket_tt, semicolon_tt,
  comma_tt, period_tt, identifier_tt, function_keyword_tt, if_keyword_tt, else_keyword_tt,
  elseif_keyword_tt, loop_keyword_tt, when_keyword_tt, do_keyword_tt, return_keyword_tt,
  break_keyword_tt, continue_keyword_tt, while_keyword_tt, for_keyword_tt, in_keyword_tt,
  include_keyword_tt, int64_keyword_tt, int32_keyword_tt, int16_keyword_tt, int8_keyword_tt,
  uint64_keyword_tt, uint32_keyword_tt, uint16_keyword_tt, uint8_keyword_tt, float32_keyword_tt,
  float64_keyword_tt, boolean_keyword_tt, char_keyword_tt, string_keyword_tt, array_keyword_tt,
  true_keyword_tt, false_keyword_tt, struct_keyword_tt, generic_keyword_tt, enum_keyword_tt,
  switch_keyword_tt, case_keyword_tt, default_keyword_tt, const_keyword_tt, module_keyword_tt,
  import_keyword_tt, asm_keyword_tt, scope_resolution_tt, colon_tt, is_linux64, is_win64,
  unary_minus_operator_tt, unary_plus_operator_tt, reference_operator_tt, dereference_operator_tt,
  end_of_file_tt, unkown_tt, function_call_parser_tt, argument_count_tt, shellcode_denoter_tt,
  variadic_tt,
}

unfoldable pub token_typename_map : List (TokenType × Bytes)
token_typename_map =
    (whitespace_tt, codes "whitespace")
    ∷ (comment_tt, codes "comment")
    ∷ (multiline_comment_start_tt, codes "multiline_comment_start")
    ∷ (multiline_comment_end_tt, codes "multiline_comment_end")
    ∷ (number_literal_tt, codes "number_literal")
    ∷ (string_literal_tt, codes "string_literal")
    ∷ (float_literal_tt, codes "float_literal")
    ∷ (add_operator_tt, codes "add_operator")
    ∷ (subtract_operator_tt, codes "subtract_operator")
    ∷ (multiply_operator_tt, codes "multiply_operator")
    ∷ (division_operator_tt, codes "division_operator")
    ∷ (modulo_operator_tt, codes "modulo_operator")
    ∷ (xor_operator_tt, codes "xor_operator")
    ∷ (unary_minus_operator_tt, codes "unary_minus")
    ∷ (unary_plus_operator_tt, codes "unary_plus")
    ∷ (unary_bitwise_not_tt, codes "unary_bitwise_not")
    ∷ (bitwise_and_tt, codes "bitwise_and")
    ∷ (bitwise_or_tt, codes "bitwise_or")
    ∷ (bitwise_lshift_tt, codes "bitwise_lshift")
    ∷ (bitwise_rshift_tt, codes "bitwise_rshift")
    ∷ (reference_operator_tt, codes "reference_operator")
    ∷ (dereference_operator_tt, codes "dereference_operator")
    ∷ (and_operator_tt, codes "and_operator")
    ∷ (or_operator_tt, codes "or_operator")
    ∷ (unary_not_operator_tt, codes "not_operator")
    ∷ (equals_operator_tt, codes "equals_operator")
    ∷ (not_equals_operator_tt, codes "not_equals_operator")
    ∷ (greater_than_operator_tt, codes "greater_than_operator")
    ∷ (less_than_operator_tt, codes "less_than_operator")
    ∷ (greater_than_or_equal_operator_tt, codes "greater_than_or_equal_operator")
    ∷ (less_than_or_equal_operator_tt, codes "less_than_or_equal_operator")
    ∷ (assignment_tt, codes "assignment")
    ∷ (add_assign_tt, codes "add_assign")
    ∷ (sub_assign_tt, codes "sub_assign")
    ∷ (mul_assign_tt, codes "mul_assign")
    ∷ (div_assign_tt, codes "div_assign")
    ∷ (mod_assign_tt, codes "mod_assign")
    ∷ (and_assign_tt, codes "and_assign")
    ∷ (or_assign_tt, codes "or_assign")
    ∷ (xor_assign_tt, codes "xor_assign")
    ∷ (lshift_assign_tt, codes "lshift_assign")
    ∷ (rshift_assign_tt, codes "rshift_assign")
    ∷ (right_paren_tt, codes "right_paren")
    ∷ (left_paren_tt, codes "left_paren")
    ∷ (right_bracket_tt, codes "right_bracket")
    ∷ (left_bracket_tt, codes "left_bracket")
    ∷ (right_curly_bracket_tt, codes "right_curly_bracket")
    ∷ (left_curly_bracket_tt, codes "left_curly_bracket")
    ∷ (semicolon_tt, codes "semicolon")
    ∷ (comma_tt, codes "comma")
    ∷ (identifier_tt, codes "identifier")
    ∷ (function_keyword_tt, codes "function")
    ∷ (if_keyword_tt, codes "if")
    ∷ (else_keyword_tt, codes "else")
    ∷ (elseif_keyword_tt, codes "elseif")
    ∷ (loop_keyword_tt, codes "loop")
    ∷ (return_keyword_tt, codes "return")
    ∷ (break_keyword_tt, codes "break")
    ∷ (continue_keyword_tt, codes "continue")
    ∷ (while_keyword_tt, codes "while")
    ∷ (for_keyword_tt, codes "for")
    ∷ (in_keyword_tt, codes "in")
    ∷ (when_keyword_tt, codes "when")
    ∷ (do_keyword_tt, codes "do")
    ∷ (include_keyword_tt, codes "include")
    ∷ (int64_keyword_tt, codes "int64")
    ∷ (int32_keyword_tt, codes "int32")
    ∷ (int16_keyword_tt, codes "int16")
    ∷ (int8_keyword_tt, codes "int8")
    ∷ (uint64_keyword_tt, codes "uint64")
    ∷ (uint32_keyword_tt, codes "uint32")
    ∷ (uint16_keyword_tt, codes "uint16")
    ∷ (uint8_keyword_tt, codes "uint8")
    ∷ (float32_keyword_tt, codes "float32")
    ∷ (float64_keyword_tt, codes "float64")
    ∷ (boolean_keyword_tt, codes "boolean")
    ∷ (char_keyword_tt, codes "char")
    ∷ (string_keyword_tt, codes "string")
    ∷ (array_keyword_tt, codes "array")
    ∷ (false_keyword_tt, codes "false")
    ∷ (true_keyword_tt, codes "true")
    ∷ (end_of_file_tt, codes "end_of_file")
    ∷ (unkown_tt, codes "unknown")
    ∷ (function_call_parser_tt, codes "function_call_parser")
    ∷ (argument_count_tt, codes "argument_count")
    ∷ (struct_keyword_tt, codes "struct")
    ∷ (generic_keyword_tt, codes "generic")
    ∷ (enum_keyword_tt, codes "enum")
    ∷ (switch_keyword_tt, codes "switch")
    ∷ (case_keyword_tt, codes "case")
    ∷ (default_keyword_tt, codes "default")
    ∷ (const_keyword_tt, codes "const")
    ∷ (module_keyword_tt, codes "module")
    ∷ (import_keyword_tt, codes "import")
    ∷ (scope_resolution_tt, codes "scope_resolution")
    ∷ (colon_tt, codes "colon")
    ∷ (period_tt, codes "period")
    ∷ (shellcode_denoter_tt, codes "denote_shellcode")
    ∷ (is_win64, codes "is_win64")
    ∷ (is_linux64, codes "is_linux64")
    ∷ (variadic_tt, codes "variadic")
    ∷ (char_literal_tt, codes "char_literal")
    ∷ (asm_keyword_tt, codes "asm")
    ∷ []

unfoldable pub find_typename : TokenType → List (TokenType × Bytes) → Option Bytes
find_typename t [] = none
find_typename t ((x, name) ∷ names) =
    let rest = find_typename t names in if is_type t x then some name else rest

-- `token_t::get_typename`; `none` is its exception.
unfoldable pub get_typename : TokenType → Option Bytes
get_typename t = find_typename t token_typename_map

-- The first type of a name.
unfoldable pub type_of_name : Bytes → List (TokenType × Bytes) → Option TokenType
type_of_name name [] = none
type_of_name name ((t, x) ∷ names) =
    let rest = type_of_name name names in if bytes_eq name x then some t else rest

-- Every type of token has a name, so `get_typename` never throws, and looking that name up in the table
-- gives the type back: different types have different names.
pub get_typename-type_of_name :
    (t : TokenType)
    → (name : Bytes) × (get_typename t ≡ some name)
      × (type_of_name name token_typename_map ≡ some t)
unfolding get_typename find_typename token_typename_map type_of_name tag occult.Common.bytes_eq
get_typename-type_of_name whitespace_tt = (_, refl, refl)
get_typename-type_of_name _ = (_, refl, refl)
