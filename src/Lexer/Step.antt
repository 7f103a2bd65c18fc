-- ===== src/Lexer/Step.antt =====
-- src/lexer/lexer.cpp: `handle_operator` and `get_next_token`.
use occult.Common.{
  ℕ, zero, suc, ◌+◌, Bool, ◌&&◌, ◌||◌, Option, none, some, [], ◌∷◌, ◌==◌, ltb, leb, if◌then◌else◌,
  Bytes, codes,
}
use occult.Lexer.Token.{
  Token, token, OperatorType, one, two, three, end_of_file_tt, unkown_tt, variadic_tt,
  scope_resolution_tt, colon_tt,
}
use occult.Lexer.Maps.{
  operator_map_single, operator_map_double, operator_map_triple, delimiter_map, find_char,
  find_text, is_some, or_default, numeric_set, alnumeric_set,
}
use occult.Lexer.State.{Lexer, increment, char_at, size}
use occult.Lexer.Scan.{
  handle_comment, is_whitespace, handle_whitespace, handle_whitespace_with_token, handle_string,
  handle_char, handle_delimiter, handle_symbol,
}
use occult.Lexer.Number.{handle_numeric}

-- Does a comment start at `pos`?
abbrev pub starts_comment : Lexer → Bool
starts_comment l =
    ltb (l.pos + 1) (size l)
    && (char_at l l.pos == b'/' && (char_at l (l.pos + 1) == b'*' || char_at l (l.pos + 1) == b'/'))

abbrev pub unknown_operator : Lexer → Token × Lexer
unknown_operator l = (token l.line l.column (codes "unknown operator") unkown_tt, l)

-- The token of an operator, where no comment starts. `l'` stands behind the operator.
unfoldable pub operator_token : OperatorType → Lexer → Token × Lexer
operator_token three l =
    let lexeme = char_at l l.pos ∷ char_at l (l.pos + 1) ∷ char_at l (l.pos + 2) ∷ [] in
    let l' = increment 0 3 3 l in
    if ltb (l.pos + 2) (size l)
    then (token l'.line l'.column lexeme (or_default (find_text operator_map_triple lexeme)), l')
    else unknown_operator l
operator_token two l =
    let lexeme = char_at l l.pos ∷ char_at l (l.pos + 1) ∷ [] in
    let l' = increment 0 2 2 l in
    if ltb (l.pos + 1) (size l)
    then (token l'.line l'.column lexeme (or_default (find_text operator_map_double lexeme)), l')
    else unknown_operator l
operator_token one l =
    let c = char_at l l.pos in
    let l' = increment 0 1 1 l in
    (token l'.line l'.column (c ∷ []) (or_default (find_char operator_map_single c)), l')

-- `again` is the recursive call of `get_next_token`, behind a comment.
unfoldable pub handle_operator :
    (Lexer → Option (Token × Lexer)) → OperatorType → Lexer → Option (Token × Lexer)
handle_operator again op_type l =
    if starts_comment l then again (handle_comment l) else some (operator_token op_type l)

-- The texts of three, two and one byte at `pos`.
abbrev pub at_triple : Lexer → Bool
at_triple l =
    ltb (l.pos + 2) (size l)
    && is_some (
        find_text operator_map_triple
          (char_at l l.pos ∷ char_at l (l.pos + 1) ∷ char_at l (l.pos + 2) ∷ []))

abbrev pub at_double : Lexer → Bool
at_double l =
    ltb (l.pos + 1) (size l)
    && is_some (find_text operator_map_double (char_at l l.pos ∷ char_at l (l.pos + 1) ∷ []))

abbrev pub at_dots : Lexer → Bool
at_dots l =
    char_at l l.pos == b'.'
    && (ltb (l.pos + 2) (size l)
        && (char_at l (l.pos + 1) == b'.' && char_at l (l.pos + 2) == b'.'))

abbrev pub at_scope : Lexer → Bool
at_scope l = ltb (l.pos + 1) (size l) && (char_at l l.pos == b':' && char_at l (l.pos + 1) == b':')

abbrev pub end_of_file : Lexer → Token × Lexer
end_of_file l = (token l.line l.column (codes "end of file") end_of_file_tt, l)

module _ (to_parsable_double : Bytes → Option Bytes) where
  -- The end of `get_next_token`: operators, symbols, and what is none of them.
  unfoldable pub operator_or_symbol :
      (Lexer → Option (Token × Lexer)) → Lexer → Option (Token × Lexer)
  operator_or_symbol again l =
      if at_triple l
      then handle_operator again three l
      else if at_double l
      then handle_operator again two l
      else if at_scope l
      then some (token l.line (l.column + 2) (codes "::") scope_resolution_tt, increment 0 2 2 l)
      else if ltb l.pos (size l) && char_at l l.pos == b':'
      then some (token l.line (l.column + 1) (codes ":") colon_tt, increment 0 1 1 l)
      else if ltb l.pos (size l) && is_some (find_char operator_map_single (char_at l l.pos))
      then handle_operator again one l
      else if ltb l.pos (size l) && alnumeric_set (char_at l l.pos)
      then some (handle_symbol l)
      else some (token l.line l.column (codes "unknown token") unkown_tt, l)

  -- Behind the white space: literals and delimiters, then the rest.
  unfoldable pub token_at : (Lexer → Option (Token × Lexer)) → Lexer → Option (Token × Lexer)
  token_at again l =
      if ltb l.pos (size l) && char_at l l.pos == 34
      then some (handle_string l)
      else if ltb l.pos (size l) && char_at l l.pos == 39
      then some (handle_char l)
      else if ltb l.pos (size l) && numeric_set (char_at l l.pos)
      then some (handle_numeric to_parsable_double l)
      else if ltb l.pos (size l) && is_some (find_char delimiter_map (char_at l l.pos))
      then if at_dots l
        then some (token l.line (l.column + 3) (codes "...") variadic_tt, increment 0 3 3 l)
        else some (handle_delimiter l)
      else operator_or_symbol again l

  -- The fuel bounds the comments that follow one another; `none` when it runs out.
  unfoldable pub get_next_token : ℕ → Lexer → Option (Token × Lexer)
  get_next_token zero l = none
  get_next_token (suc fuel) l =
      if leb (size l) l.pos
      then some (end_of_file l)
      else if l.use_whitespace && is_whitespace (char_at l l.pos)
      then some (handle_whitespace_with_token l)
      else token_at (get_next_token fuel) (handle_whitespace l)
