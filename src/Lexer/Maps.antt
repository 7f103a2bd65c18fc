-- ===== src/Lexer/Maps.antt =====
-- src/lexer/lexer_maps.hpp: the tables of the lexer. A table from bytes or texts to token types is an
-- association list. `map[key]` on a missing key would insert `whitespace_tt`, the value 0.
use occult.Common.{
  ℕ, Bool, true, false, Option, none, some, List, [], ◌∷◌, ◌&&◌, ◌||◌, ◌==◌, leb, if◌then◌else◌,
  Bytes, codes, bytes_eq,
}
use occult.Lexer.Token.{
  TokenType, add_assign_tt, add_operator_tt, and_assign_tt, and_operator_tt, array_keyword_tt,
  asm_keyword_tt, assignment_tt, bitwise_and_tt, bitwise_lshift_tt, bitwise_or_tt,
  bitwise_rshift_tt, boolean_keyword_tt, break_keyword_tt, case_keyword_tt, char_keyword_tt,
  comma_tt, comment_tt, const_keyword_tt, continue_keyword_tt, default_keyword_tt,
  dereference_operator_tt, div_assign_tt, division_operator_tt, do_keyword_tt, else_keyword_tt,
  elseif_keyword_tt, enum_keyword_tt, equals_operator_tt, false_keyword_tt, float32_keyword_tt,
  float64_keyword_tt, for_keyword_tt, function_keyword_tt, generic_keyword_tt,
  greater_than_operator_tt, greater_than_or_equal_operator_tt, if_keyword_tt, import_keyword_tt,
  in_keyword_tt, include_keyword_tt, int16_keyword_tt, int32_keyword_tt, int64_keyword_tt,
  int8_keyword_tt, is_linux64, is_win64, left_bracket_tt, left_curly_bracket_tt, left_paren_tt,
  less_than_operator_tt, less_than_or_equal_operator_tt, loop_keyword_tt, lshift_assign_tt,
  mod_assign_tt, module_keyword_tt, modulo_operator_tt, mul_assign_tt, multiline_comment_end_tt,
  multiline_comment_start_tt, multiply_operator_tt, not_equals_operator_tt, or_assign_tt,
  or_operator_tt, period_tt, reference_operator_tt, return_keyword_tt, right_bracket_tt,
  right_curly_bracket_tt, right_paren_tt, rshift_assign_tt, semicolon_tt, shellcode_denoter_tt,
  string_keyword_tt, struct_keyword_tt, sub_assign_tt, subtract_operator_tt, switch_keyword_tt,
  true_keyword_tt, uint16_keyword_tt, uint32_keyword_tt, uint64_keyword_tt, uint8_keyword_tt,
  unary_bitwise_not_tt, unary_not_operator_tt, when_keyword_tt, while_keyword_tt, whitespace_tt,
  xor_assign_tt, xor_operator_tt,
}

-- The openings and the closing of comments.
unfoldable pub comment_map : List (Bytes × TokenType)
comment_map =
    (codes "//", comment_tt)
    ∷ (codes "/*", multiline_comment_start_tt)
    ∷ (codes "*/", multiline_comment_end_tt)
    ∷ []

-- White space; 9 to 13 are tab, line feed, vertical tab, form feed and carriage return.
unfoldable pub whitespace_map : List (ℕ × TokenType)
whitespace_map =
    (b' ', whitespace_tt)
    ∷ (9, whitespace_tt)
    ∷ (13, whitespace_tt)
    ∷ (10, whitespace_tt)
    ∷ (11, whitespace_tt)
    ∷ (12, whitespace_tt)
    ∷ []

-- Operators of one byte.
unfoldable pub operator_map_single : List (ℕ × TokenType)
operator_map_single =
    (b'>', greater_than_operator_tt)
    ∷ (b'<', less_than_operator_tt)
    ∷ (b'!', unary_not_operator_tt)
    ∷ (b'+', add_operator_tt)
    ∷ (b'-', subtract_operator_tt)
    ∷ (b'*', multiply_operator_tt)
    ∷ (b'/', division_operator_tt)
    ∷ (b'%', modulo_operator_tt)
    ∷ (b'^', xor_operator_tt)
    ∷ (b'&', bitwise_and_tt)
    ∷ (b'~', unary_bitwise_not_tt)
    ∷ (b'|', bitwise_or_tt)
    ∷ (b'=', assignment_tt)
    ∷ (b'@', reference_operator_tt)
    ∷ (b'$', dereference_operator_tt)
    ∷ []

-- Operators of two bytes.
unfoldable pub operator_map_double : List (Bytes × TokenType)
operator_map_double =
    (codes "&&", and_operator_tt)
    ∷ (codes "||", or_operator_tt)
    ∷ (codes "==", equals_operator_tt)
    ∷ (codes "!=", not_equals_operator_tt)
    ∷ (codes ">=", greater_than_or_equal_operator_tt)
    ∷ (codes "<=", less_than_or_equal_operator_tt)
    ∷ (codes "<<", bitwise_lshift_tt)
    ∷ (codes ">>", bitwise_rshift_tt)
    ∷ (codes "+=", add_assign_tt)
    ∷ (codes "-=", sub_assign_tt)
    ∷ (codes "*=", mul_assign_tt)
    ∷ (codes "/=", div_assign_tt)
    ∷ (codes "%=", mod_assign_tt)
    ∷ (codes "&=", and_assign_tt)
    ∷ (codes "|=", or_assign_tt)
    ∷ (codes "^=", xor_assign_tt)
    ∷ []

-- Operators of three bytes.
unfoldable pub operator_map_triple : List (Bytes × TokenType)
operator_map_triple = (codes "<<=", lshift_assign_tt) ∷ (codes ">>=", rshift_assign_tt) ∷ []

-- Delimiters.
unfoldable pub delimiter_map : List (ℕ × TokenType)
delimiter_map =
    (b')', right_paren_tt)
    ∷ (b'(', left_paren_tt)
    ∷ (b']', right_bracket_tt)
    ∷ (b'[', left_bracket_tt)
    ∷ (b'}', right_curly_bracket_tt)
    ∷ (b'{', left_curly_bracket_tt)
    ∷ (b';', semicolon_tt)
    ∷ (b',', comma_tt)
    ∷ (b'.', period_tt)
    ∷ []

-- Keywords.
unfoldable pub keyword_map : List (Bytes × TokenType)
keyword_map =
    (codes "fn", function_keyword_tt)
    ∷ (codes "if", if_keyword_tt)
    ∷ (codes "else", else_keyword_tt)
    ∷ (codes "elseif", elseif_keyword_tt)
    ∷ (codes "loop", loop_keyword_tt)
    ∷ (codes "when", when_keyword_tt)
    ∷ (codes "do", do_keyword_tt)
    ∷ (codes "return", return_keyword_tt)
    ∷ (codes "break", break_keyword_tt)
    ∷ (codes "continue", continue_keyword_tt)
    ∷ (codes "while", while_keyword_tt)
    ∷ (codes "for", for_keyword_tt)
    ∷ (codes "include", include_keyword_tt)
    ∷ (codes "i64", int64_keyword_tt)
    ∷ (codes "i32", int32_keyword_tt)
    ∷ (codes "i16", int16_keyword_tt)
    ∷ (codes "i8", int8_keyword_tt)
    ∷ (codes "u64", uint64_keyword_tt)
    ∷ (codes "u32", uint32_keyword_tt)
    ∷ (codes "u16", uint16_keyword_tt)
    ∷ (codes "u8", uint8_keyword_tt)
    ∷ (codes "f32", float32_keyword_tt)
    ∷ (codes "f64", float64_keyword_tt)
    ∷ (codes "bool", boolean_keyword_tt)
    ∷ (codes "char", char_keyword_tt)
    ∷ (codes "string", string_keyword_tt)
    ∷ (codes "array", array_keyword_tt)
    ∷ (codes "false", false_keyword_tt)
    ∷ (codes "true", true_keyword_tt)
    ∷ (codes "in", in_keyword_tt)
    ∷ (codes "struct", struct_keyword_tt)
    ∷ (codes "generic", generic_keyword_tt)
    ∷ (codes "enum", enum_keyword_tt)
    ∷ (codes "switch", switch_keyword_tt)
    ∷ (codes "case", case_keyword_tt)
    ∷ (codes "default", default_keyword_tt)
    ∷ (codes "const", const_keyword_tt)
    ∷ (codes "module", module_keyword_tt)
    ∷ (codes "import", import_keyword_tt)
    ∷ (codes "shellcode", shellcode_denoter_tt)
    ∷ (codes "is_linux64", is_linux64)
    ∷ (codes "is_win64", is_win64)
    ∷ (codes "asm", asm_keyword_tt)
    ∷ []

-- `map.find(c)` of the tables keyed by a byte.
unfoldable pub find_char : List (ℕ × TokenType) → ℕ → Option TokenType
find_char [] c = none
find_char ((k, t) ∷ m) c = if c == k then some t else find_char m c

-- `map.find(s)` of the tables keyed by a text.
unfoldable pub find_text : List (Bytes × TokenType) → Bytes → Option TokenType
find_text [] s = none
find_text ((k, t) ∷ m) s = if bytes_eq s k then some t else find_text m s

abbrev pub is_some {ℓ} : {A : Type ℓ} → Option A → Bool
is_some none = false
is_some (some a) = true

-- `map[key]`, which is `whitespace_tt` where the key is missing.
abbrev pub or_default : Option TokenType → TokenType
or_default none = whitespace_tt
or_default (some t) = t

unfoldable pub numeric_set : ℕ → Bool
numeric_set c = leb b'0' c && leb c b'9'

unfoldable pub alnumeric_set : ℕ → Bool
alnumeric_set c = leb b'a' c && leb c b'z' || leb b'A' c && leb c b'Z' || numeric_set c || c == b'_'
