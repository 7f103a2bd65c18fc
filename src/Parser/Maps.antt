-- ===== src/Parser/Maps.antt =====
-- src/parser/parser_maps.hpp: the precedence of operators and the nodes of tokens, on Linux.
use occult.Common.{ℕ, Option, none, some, Bytes, codes}
use occult.Lexer.Token.{
  TokenType, function_call_parser_tt, comma_tt, identifier_tt, number_literal_tt, false_keyword_tt,
  true_keyword_tt, is_linux64, is_win64, char_literal_tt, float_literal_tt, string_literal_tt,
  add_operator_tt, subtract_operator_tt, unary_plus_operator_tt, unary_minus_operator_tt,
  multiply_operator_tt, division_operator_tt, modulo_operator_tt, bitwise_and_tt,
  unary_bitwise_not_tt, bitwise_or_tt, xor_operator_tt, bitwise_lshift_tt, bitwise_rshift_tt,
  and_operator_tt, or_operator_tt, unary_not_operator_tt, equals_operator_tt,
  not_equals_operator_tt, greater_than_operator_tt, less_than_operator_tt,
  greater_than_or_equal_operator_tt, less_than_or_equal_operator_tt, dereference_operator_tt,
  reference_operator_tt, assignment_tt, left_paren_tt,
}
use occult.Parser.Cst.{
  Node, new_node, add_operator, and_operator, bitwise_and, bitwise_lshift, bitwise_or,
  bitwise_rshift, charliteral, comma, dereference, division_operator, equals_operator,
  float_literal, functioncall, greater_than_operator, greater_than_or_equal_operator, identifier,
  less_than_operator, less_than_or_equal_operator, modulo_operator, multiply_operator,
  not_equals_operator, number_literal, or_operator, reference, stringliteral, subtract_operator,
  unary_bitwise_not, unary_minus_operator, unary_not_operator, unary_plus_operator, xor_operator,
}

-- `precedence_map[…]`: 0 where there is no entry.
unfoldable pub precedence : TokenType → ℕ
precedence unary_plus_operator_tt = 2
precedence unary_minus_operator_tt = 2
precedence unary_bitwise_not_tt = 2
precedence unary_not_operator_tt = 2
precedence dereference_operator_tt = 2
precedence reference_operator_tt = 2
precedence multiply_operator_tt = 3
precedence division_operator_tt = 3
precedence modulo_operator_tt = 3
precedence add_operator_tt = 4
precedence subtract_operator_tt = 4
precedence bitwise_rshift_tt = 5
precedence bitwise_lshift_tt = 5
precedence greater_than_operator_tt = 8
precedence less_than_operator_tt = 8
precedence less_than_or_equal_operator_tt = 8
precedence greater_than_or_equal_operator_tt = 8
precedence equals_operator_tt = 9
precedence not_equals_operator_tt = 9
precedence bitwise_and_tt = 10
precedence xor_operator_tt = 11
precedence bitwise_or_tt = 12
precedence and_operator_tt = 13
precedence or_operator_tt = 14
precedence assignment_tt = 15
precedence left_paren_tt = 17
precedence _ = 0

-- `cst_map.find`: what makes the node of a token from its lexeme.
unfoldable pub cst_map : TokenType → Option (Bytes → Node)
cst_map function_call_parser_tt = some (λ lexeme. new_node functioncall lexeme)
cst_map comma_tt = some (λ lexeme. new_node comma lexeme)
cst_map identifier_tt = some (λ lexeme. new_node identifier lexeme)
cst_map number_literal_tt = some (λ lexeme. new_node number_literal lexeme)
cst_map false_keyword_tt = some (λ _. new_node number_literal (codes "0"))
cst_map true_keyword_tt = some (λ _. new_node number_literal (codes "1"))
cst_map is_linux64 = some (λ _. new_node number_literal (codes "1"))
cst_map is_win64 = some (λ _. new_node number_literal (codes "0"))
cst_map char_literal_tt = some (λ lexeme. new_node charliteral lexeme)
cst_map float_literal_tt = some (λ lexeme. new_node float_literal lexeme)
cst_map string_literal_tt = some (λ lexeme. new_node stringliteral lexeme)
cst_map add_operator_tt = some (λ lexeme. new_node add_operator lexeme)
cst_map subtract_operator_tt = some (λ lexeme. new_node subtract_operator lexeme)
cst_map unary_plus_operator_tt = some (λ lexeme. new_node unary_plus_operator lexeme)
cst_map unary_minus_operator_tt = some (λ lexeme. new_node unary_minus_operator lexeme)
cst_map multiply_operator_tt = some (λ lexeme. new_node multiply_operator lexeme)
cst_map division_operator_tt = some (λ lexeme. new_node division_operator lexeme)
cst_map modulo_operator_tt = some (λ lexeme. new_node modulo_operator lexeme)
cst_map bitwise_and_tt = some (λ lexeme. new_node bitwise_and lexeme)
cst_map unary_bitwise_not_tt = some (λ lexeme. new_node unary_bitwise_not lexeme)
cst_map bitwise_or_tt = some (λ lexeme. new_node bitwise_or lexeme)
cst_map xor_operator_tt = some (λ lexeme. new_node xor_operator lexeme)
cst_map bitwise_lshift_tt = some (λ lexeme. new_node bitwise_lshift lexeme)
cst_map bitwise_rshift_tt = some (λ lexeme. new_node bitwise_rshift lexeme)
cst_map and_operator_tt = some (λ lexeme. new_node and_operator lexeme)
cst_map or_operator_tt = some (λ lexeme. new_node or_operator lexeme)
cst_map unary_not_operator_tt = some (λ lexeme. new_node unary_not_operator lexeme)
cst_map equals_operator_tt = some (λ lexeme. new_node equals_operator lexeme)
cst_map not_equals_operator_tt = some (λ lexeme. new_node not_equals_operator lexeme)
cst_map greater_than_operator_tt = some (λ lexeme. new_node greater_than_operator lexeme)
cst_map less_than_operator_tt = some (λ lexeme. new_node less_than_operator lexeme)
cst_map greater_than_or_equal_operator_tt =
    some (λ lexeme. new_node greater_than_or_equal_operator lexeme)
cst_map less_than_or_equal_operator_tt =
    some (λ lexeme. new_node less_than_or_equal_operator lexeme)
cst_map dereference_operator_tt = some (λ lexeme. new_node dereference lexeme)
cst_map reference_operator_tt = some (λ lexeme. new_node reference lexeme)
cst_map _ = none
