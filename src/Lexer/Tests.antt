-- ===== src/Lexer/Tests.antt =====
-- The lexer on small sources, and its theorems at concrete inputs.
use occult.Common.{
  ◌≡◌, refl, false, Option, none, some, List, [], ◌∷◌, Bytes, codes, String, map, ◌+◌, take_while,
  arith, length, inl, inr, Yields,
}
use occult.Lexer.Token
use occult.Lexer.Typenames
use occult.Lexer.Comments
use occult.Lexer.Token.{
  Token, TokenType, token, tag, number_literal_tt, string_literal_tt, is_type, end_of_file_tt,
}
use occult.Lexer.State
use occult.Lexer.State.{lexer, increment, collect}
use occult.Lexer.Scan.{
  asm_body, comment_body, ends_comment, escape, handle_asm_block, handle_comment, handle_delimiter,
  handle_escape_sequences, handle_literal, handle_symbol, handle_whitespace,
  handle_whitespace_with_token, join_else_if, skip_block, skip_line, skip_spaces, word_type,
}
use occult.Lexer.Number.{
  contains, decimal, digit_value, digits_value, from_chars, handle_numeric, is_binary, is_hex,
  is_number_byte, is_octal, normal_lexeme, normal_number, octal_digits, octal_number, radix_number,
  to_parsable_type, to_string, zero_number,
}
use occult.Lexer.Step.{
  get_next_token, handle_operator, operator_or_symbol, operator_token, token_at,
}
use occult.Lexer.Analyze.{
  absorb, analyze, analyze_loop, asm_tokens, is_unary_context, mark_unary, next, next_known, one_of,
  push_token, unary_context,
}
use occult.Lexer.Maps.{
  alnumeric_set, find_char, find_text, numeric_set, keyword_map, operator_map_single,
  operator_map_double, operator_map_triple, comment_map, whitespace_map, delimiter_map,
}
use occult.Common.{bytes_eq}
use occult.Lexer.Total.{Next, is_known, starts_literal, starts_word, next-Yields}
use occult.Lexer.Terminates.{Analyzed, analyze_total}
use occult.Lexer.Stuck.{IsStuck, analyze_loop-IsStuck}
use occult.Lexer.Numbers.{handle_numeric-to_string, handle_numeric-swallows_sign}
use occult.Lexer.Literals.{handle_literal-quoted, quoted, quote_byte}

abbrev no_double : Bytes → Option Bytes
no_double s = none

types : Option (List Token × State.Lexer) → List TokenType
types none = []
types (some r) = map (λ t. t.type) r.0

lexemes : Option (List Token × State.Lexer) → List Bytes
lexemes none = []
lexemes (some r) = map (λ t. t.lexeme) r.0

-- The line opens all that a run of the lexer computes with.
lex : String → Option (List Token × State.Lexer)
unfolding absorb alnumeric_set analyze analyze_loop asm_body asm_tokens bytes_eq collect
    comment_body comment_map contains decimal delimiter_map digit_value digits_value ends_comment
    escape find_char find_text from_chars get_next_token handle_asm_block handle_comment
    handle_delimiter handle_escape_sequences handle_literal handle_numeric handle_operator
    handle_symbol handle_whitespace handle_whitespace_with_token is_binary is_hex is_number_byte
    is_octal is_unary_context join_else_if keyword_map mark_unary next next_known normal_lexeme
    normal_number numeric_set octal_digits octal_number one_of operator_map_double
    operator_map_single operator_map_triple operator_or_symbol operator_token push_token
    radix_number skip_block skip_line skip_spaces tag take_while to_parsable_type to_string token_at
    unary_context whitespace_map word_type zero_number
lex s = analyze no_double 60 (lexer (codes s) false)

lex_function :
    types (lex "fn f() { /* c */ return -0x1F; } // x")
    ≡ Token.function_keyword_tt ∷ Token.identifier_tt ∷ Token.left_paren_tt ∷ Token.right_paren_tt
      ∷ Token.left_curly_bracket_tt ∷ Token.return_keyword_tt ∷ Token.unary_minus_operator_tt
      ∷ Token.number_literal_tt ∷ Token.semicolon_tt ∷ Token.right_curly_bracket_tt
      ∷ Token.end_of_file_tt ∷ []
unfolding types lex
lex_function = refl

lex_words :
    lexemes (lex "else   if x <<= 017 \"a\\n\"")
    ≡ codes "elseif" ∷ codes "x" ∷ codes "<<=" ∷ codes "15" ∷ codes "a\n" ∷ codes "end of file" ∷ []
unfolding lexemes lex
lex_words = refl

-- The operator and the second operand are lost.
lex_sum : lexemes (lex "1+2") ≡ codes "1" ∷ codes "end of file" ∷ []
unfolding lexemes lex
lex_sum = refl

next-Yields_example :
    Yields (Next (lexer (codes "/**/+") false)) (next no_double (lexer (codes "/**/+") false))
next-Yields_example = next-Yields no_double (lexer (codes "/**/+") false)

analyze_total_example :
    (r : List Token × State.Lexer) × (analyze no_double 6 (lexer (codes "a=1") false) ≡ some r)
    × Analyzed (codes "a=1") r
unfolding lex is_known starts_literal starts_word
analyze_total_example =
    analyze_total no_double (codes "a=1") false 6 (refl, (refl, (refl, tt))) (omega arith)

-- `#` is no byte of the language.
abbrev at_hash : State.Lexer
at_hash = lexer (codes "#") false

at_hash-IsStuck : IsStuck at_hash
unfolding lex is_known starts_literal starts_word
at_hash-IsStuck = record { inside = omega arith; unknown = refl }

analyze_loop-IsStuck_example :
    analyze_loop no_double 100 end_of_file_tt [] (token 1 1 (codes "a") Token.identifier_tt) at_hash
    ≡ none
unfolding tag
analyze_loop-IsStuck_example =
    analyze_loop-IsStuck no_double at_hash-IsStuck 100 end_of_file_tt []
      (token 1 1 (codes "a") Token.identifier_tt) refl

handle_numeric-to_string_example : handle_numeric no_double (lexer (codes "4096;") false) ≡ (
  token 1 (1 + length (to_string 4096)) (to_string 4096) number_literal_tt,
  increment 0 (length (to_string 4096)) (length (to_string 4096)) (lexer (codes "4096;") false),
)
unfolding lex
handle_numeric-to_string_example =
    handle_numeric-to_string no_double (lexer (codes "4096;") false) 4096 (codes ";") (omega arith)
      (omega arith) refl refl

handle_numeric-swallows_sign_example :
    handle_numeric no_double (lexer (codes "12-5;") false)
    ≡ (token 1 5 (codes "12") number_literal_tt, increment 0 4 4 (lexer (codes "12-5;") false))
unfolding lex
handle_numeric-swallows_sign_example =
    handle_numeric-swallows_sign no_double (lexer (codes "12-5;") false) (codes "12") (codes "5")
      (codes ";") b'-' (refl, (refl, tt)) refl (inr refl) (refl, tt) refl refl (omega arith)

handle_literal-quoted_example :
    handle_literal 34 string_literal_tt (lexer (codes "\"a\\\"\\n\" x") false) ≡ (
      token 1 8 (codes "a\"\n") string_literal_tt,
      increment 0 7 7 (lexer (codes "\"a\\\"\\n\" x") false),
    )
unfolding lex quoted quote_byte
handle_literal-quoted_example =
    handle_literal-quoted 34 (inl refl) string_literal_tt (codes "a\"\n") (codes " x")
      (lexer (codes "\"a\\\"\\n\" x") false) refl

get_typename-type_of_name_example :
    (name : Bytes) × (Typenames.get_typename Token.asm_keyword_tt ≡ some name)
    × (Typenames.type_of_name name Typenames.token_typename_map ≡ some Token.asm_keyword_tt)
get_typename-type_of_name_example = Typenames.get_typename-type_of_name Token.asm_keyword_tt

handle_comment-append_example :
    (handle_comment (lexer (codes "/*a*\n*/ b") false)
      ≡ increment 1 7 7 (lexer (codes "/*a*\n*/ b") false))
    × (handle_comment (lexer (codes "//a\nb") false)
        ≡ increment 0 3 3 (lexer (codes "//a\nb") false))
unfolding Comments.newlines ends_comment find_text comment_map tag occult.Common.bytes_eq
handle_comment-append_example =
    Comments.handle_comment-append (lexer (codes "/*a*\n*/ b") false) (lexer (codes "//a\nb") false)
      (codes "a*\n") (codes "a") (codes " b") (codes "\nb") refl (refl, (refl, (refl, tt))) refl
      (refl, tt) refl
