-- ===== src/Lexer/Token.antt =====
-- src/lexer/lexer.hpp: the kinds of token, the tokens, and the widths of operators.
use occult.Common.{ℕ, Bool, ◌==◌, Bytes}

-- `enum token_type : std::uint8_t`, in the source's order.
pub data TokenType : Type 0 where
  whitespace_tt comment_tt multiline_comment_start_tt multiline_comment_end_tt : TokenType
  number_literal_tt string_literal_tt char_literal_tt float_literal_tt add_operator_tt : TokenType
  subtract_operator_tt multiply_operator_tt division_operator_tt modulo_operator_tt : TokenType
  bitwise_and_tt unary_bitwise_not_tt bitwise_or_tt xor_operator_tt bitwise_lshift_tt : TokenType
  bitwise_rshift_tt and_operator_tt or_operator_tt unary_not_operator_tt : TokenType
  equals_operator_tt not_equals_operator_tt greater_than_operator_tt : TokenType
  less_than_operator_tt greater_than_or_equal_operator_tt : TokenType
  less_than_or_equal_operator_tt assignment_tt add_assign_tt sub_assign_tt : TokenType
  mul_assign_tt div_assign_tt mod_assign_tt and_assign_tt or_assign_tt xor_assign_tt : TokenType
  lshift_assign_tt rshift_assign_tt right_paren_tt left_paren_tt right_bracket_tt : TokenType
  left_bracket_tt right_curly_bracket_tt left_curly_bracket_tt semicolon_tt comma_tt : TokenType
  period_tt identifier_tt function_keyword_tt if_keyword_tt else_keyword_tt : TokenType
  elseif_keyword_tt loop_keyword_tt when_keyword_tt do_keyword_tt return_keyword_tt : TokenType
  break_keyword_tt continue_keyword_tt while_keyword_tt for_keyword_tt in_keyword_tt : TokenType
  include_keyword_tt int64_keyword_tt int32_keyword_tt int16_keyword_tt : TokenType
  int8_keyword_tt uint64_keyword_tt uint32_keyword_tt uint16_keyword_tt : TokenType
  uint8_keyword_tt float32_keyword_tt float64_keyword_tt boolean_keyword_tt : TokenType
  char_keyword_tt string_keyword_tt array_keyword_tt true_keyword_tt false_keyword_tt : TokenType
  struct_keyword_tt generic_keyword_tt enum_keyword_tt switch_keyword_tt : TokenType
  case_keyword_tt default_keyword_tt const_keyword_tt module_keyword_tt : TokenType
  import_keyword_tt asm_keyword_tt scope_resolution_tt colon_tt is_linux64 is_win64 : TokenType
  unary_minus_operator_tt unary_plus_operator_tt reference_operator_tt : TokenType
  dereference_operator_tt end_of_file_tt unkown_tt function_call_parser_tt : TokenType
  argument_count_tt shellcode_denoter_tt variadic_tt : TokenType

-- The value that the enumeration gives each name; `==` on `token_type` compares these.
unfoldable pub tag : TokenType → ℕ
tag whitespace_tt = 0
tag comment_tt = 1
tag multiline_comment_start_tt = 2
tag multiline_comment_end_tt = 3
tag number_literal_tt = 4
tag string_literal_tt = 5
tag char_literal_tt = 6
tag float_literal_tt = 7
tag add_operator_tt = 8
tag subtract_operator_tt = 9
tag multiply_operator_tt = 10
tag division_operator_tt = 11
tag modulo_operator_tt = 12
tag bitwise_and_tt = 13
tag unary_bitwise_not_tt = 14
tag bitwise_or_tt = 15
tag xor_operator_tt = 16
tag bitwise_lshift_tt = 17
tag bitwise_rshift_tt = 18
tag and_operator_tt = 19
tag or_operator_tt = 20
tag unary_not_operator_tt = 21
tag equals_operator_tt = 22
tag not_equals_operator_tt = 23
tag greater_than_operator_tt = 24
tag less_than_operator_tt = 25
tag greater_than_or_equal_operator_tt = 26
tag less_than_or_equal_operator_tt = 27
tag assignment_tt = 28
tag add_assign_tt = 29
tag sub_assign_tt = 30
tag mul_assign_tt = 31
tag div_assign_tt = 32
tag mod_assign_tt = 33
tag and_assign_tt = 34
tag or_assign_tt = 35
tag xor_assign_tt = 36
tag lshift_assign_tt = 37
tag rshift_assign_tt = 38
tag right_paren_tt = 39
tag left_paren_tt = 40
tag right_bracket_tt = 41
tag left_bracket_tt = 42
tag right_curly_bracket_tt = 43
tag left_curly_bracket_tt = 44
tag semicolon_tt = 45
tag comma_tt = 46
tag period_tt = 47
tag identifier_tt = 48
tag function_keyword_tt = 49
tag if_keyword_tt = 50
tag else_keyword_tt = 51
tag elseif_keyword_tt = 52
tag loop_keyword_tt = 53
tag when_keyword_tt = 54
tag do_keyword_tt = 55
tag return_keyword_tt = 56
tag break_keyword_tt = 57
tag continue_keyword_tt = 58
tag while_keyword_tt = 59
tag for_keyword_tt = 60
tag in_keyword_tt = 61
tag include_keyword_tt = 62
tag int64_keyword_tt = 63
tag int32_keyword_tt = 64
tag int16_keyword_tt = 65
tag int8_keyword_tt = 66
tag uint64_keyword_tt = 67
tag uint32_keyword_tt = 68
tag uint16_keyword_tt = 69
tag uint8_keyword_tt = 70
tag float32_keyword_tt = 71
tag float64_keyword_tt = 72
tag boolean_keyword_tt = 73
tag char_keyword_tt = 74
tag string_keyword_tt = 75
tag array_keyword_tt = 76
tag true_keyword_tt = 77
tag false_keyword_tt = 78
tag struct_keyword_tt = 79
tag generic_keyword_tt = 80
tag enum_keyword_tt = 81
tag switch_keyword_tt = 82
tag case_keyword_tt = 83
tag default_keyword_tt = 84
tag const_keyword_tt = 85
tag module_keyword_tt = 86
tag import_keyword_tt = 87
tag asm_keyword_tt = 88
tag scope_resolution_tt = 89
tag colon_tt = 90
tag is_linux64 = 91
tag is_win64 = 92
tag unary_minus_operator_tt = 93
tag unary_plus_operator_tt = 94
tag reference_operator_tt = 95
tag dereference_operator_tt = 96
tag end_of_file_tt = 97
tag unkown_tt = 98
tag function_call_parser_tt = 99
tag argument_count_tt = 100
tag shellcode_denoter_tt = 101
tag variadic_tt = 102

abbrev pub is_type : TokenType → TokenType → Bool
is_type a b = tag a == tag b

pub record Token : Type 0 where
  pub line : ℕ
  pub column : ℕ
  pub lexeme : Bytes
  pub type : TokenType

-- `token_t(line, column, lexeme, tt)`
abbrev pub token : ℕ → ℕ → Bytes → TokenType → Token
token line column lexeme type = record {
  line = line;
  column = column;
  lexeme = lexeme;
  type = type;
}

pub data OperatorType : Type 0 where
  one two three : OperatorType
