-- ===== src/Lexer/Scan.antt =====
-- src/lexer/lexer.cpp: the handlers of comments, white space, string and character literals, delimiters,
-- symbols and assembly blocks.
use occult.Common.{
  ℕ, suc, ◌+◌, ◌-◌, Bool, ◌&&◌, none, some, [], ◌∷◌, ◌==◌, ltb, if◌then◌else◌, Bytes, codes,
  bytes_eq, take, drop,
}
use occult.Lexer.Token.{
  TokenType, tag, is_type, Token, token, comment_tt, multiline_comment_start_tt,
  multiline_comment_end_tt, whitespace_tt, string_literal_tt, char_literal_tt, identifier_tt,
  shellcode_denoter_tt,
}
use occult.Lexer.Maps.{
  comment_map, whitespace_map, delimiter_map, keyword_map, find_char, find_text, is_some,
  or_default, alnumeric_set,
}
use occult.Lexer.State.{Lexer, increment, newline, char_at, rest, size, is_newline, collect}

-- The loop of a comment that ends with its line.
unfoldable pub skip_line : Bytes → Lexer → Lexer
skip_line [] l = l
skip_line (c ∷ cs) l =
    let more = skip_line cs (increment 0 1 1 l) in if is_newline c then l else more

-- Is `comment_map[c, d]` the end of a comment?
unfoldable pub ends_comment : ℕ → ℕ → Bool
unfolding tag
ends_comment c d =
    is_type (or_default (find_text comment_map (c ∷ d ∷ []))) multiline_comment_end_tt

-- The two increments at a byte inside a multi-line comment.
abbrev pub comment_byte : ℕ → Lexer → Lexer
comment_byte c l = increment 0 1 1 (if is_newline c then increment 1 0 0 l else l)

-- The loop of a multi-line comment.
unfoldable pub skip_block : Bytes → Lexer → Lexer
skip_block [] l = l
skip_block (c ∷ []) l = comment_byte c l
skip_block (c ∷ d ∷ cs) l =
    let more = skip_block (d ∷ cs) (comment_byte c l) in
    if ends_comment c d then increment 0 2 2 l else more

-- Behind the opening of a comment of kind `kind`.
unfoldable pub comment_body : TokenType → Lexer → Lexer
unfolding tag
comment_body kind l =
    if is_type kind comment_tt
    then skip_line (rest l) l
    else if is_type kind multiline_comment_start_tt
    then skip_block (rest l) l
    else l

unfoldable pub handle_comment : Lexer → Lexer
handle_comment l =
    if ltb (l.pos + 1) (size l)
    then elim (find_text comment_map (char_at l l.pos ∷ char_at l (l.pos + 1) ∷ [])) [
      | none ↦ l
      | some kind ↦ comment_body kind (increment 0 2 2 l)
    ]
    else l

abbrev pub is_whitespace : ℕ → Bool
is_whitespace c = is_some (find_char whitespace_map c)

-- The step over one byte of white space.
abbrev pub step_whitespace : ℕ → Lexer → Lexer
step_whitespace c l = if is_newline c then newline l else increment 0 1 1 l

unfoldable pub handle_whitespace : Lexer → Lexer
handle_whitespace l =
    if is_whitespace (char_at l l.pos) then step_whitespace (char_at l l.pos) l else l

unfoldable pub handle_whitespace_with_token : Lexer → Token × Lexer
handle_whitespace_with_token l =
    let c = char_at l l.pos in
    let l' = if is_whitespace c then step_whitespace c l else l in
    (token l'.line l'.column (if is_whitespace c then c ∷ [] else []) whitespace_tt, l')

-- What the byte behind a backslash stands for.
unfoldable pub escape : ℕ → ℕ
escape c = if c == b'n' then 10 else if c == b'r' then 13 else if c == b't' then 9 else c

-- The loop over the body of a literal that ends with the byte `type`. A backslash that ends the
-- source still moves `pos` twice.
unfoldable pub handle_escape_sequences : ℕ → Bytes → Lexer → Bytes × Lexer
handle_escape_sequences type [] l = ([], l)
handle_escape_sequences type (c ∷ []) l =
    if c == type
    then ([], l)
    else if c == b'\\'
    then ([], increment 0 1 1 (increment 0 1 1 l))
    else (c ∷ [], increment 0 1 1 l)
handle_escape_sequences type (c ∷ d ∷ cs) l =
    let escaped = handle_escape_sequences type cs (increment 0 1 1 (increment 0 1 1 l)) in
    let plain = handle_escape_sequences type (d ∷ cs) (increment 0 1 1 l) in
    if c == type
    then ([], l)
    else if c == b'\\'
    then (escape d ∷ escaped.0, escaped.1)
    else (c ∷ plain.0, plain.1)

-- `if (pos < source.length() && source[pos] == type) increment(0, 1, 1);`
abbrev pub skip_closing : ℕ → Lexer → Lexer
skip_closing type l = if ltb l.pos (size l) && char_at l l.pos == type then increment 0 1 1 l else l

-- `handle_string` and `handle_char` differ in the closing byte and in the kind of their token.
unfoldable pub handle_literal : ℕ → TokenType → Lexer → Token × Lexer
handle_literal type kind l =
    let opened = increment 0 1 1 l in
    let (lexeme, body) = handle_escape_sequences type (rest opened) opened in
    let closed = skip_closing type body in (token closed.line closed.column lexeme kind, closed)

abbrev pub handle_string : Lexer → Token × Lexer
handle_string = handle_literal 34 string_literal_tt

abbrev pub handle_char : Lexer → Token × Lexer
handle_char = handle_literal 39 char_literal_tt

unfoldable pub handle_delimiter : Lexer → Token × Lexer
handle_delimiter l =
    let c = char_at l l.pos in
    let l' = increment 0 1 1 l in
    (token l'.line l'.column (c ∷ []) (or_default (find_char delimiter_map c)), l')

-- `while (next_pos < source.length() && source[next_pos] == ' ') ++next_pos;`
unfoldable pub skip_spaces : Bytes → ℕ → ℕ
skip_spaces [] next_pos = next_pos
skip_spaces (c ∷ cs) next_pos =
    let more = skip_spaces cs (next_pos + 1) in if c == b' ' then more else next_pos

-- `lexeme == "else" && pos < source.length() && source[pos] == ' '`
abbrev pub before_else_if : Bytes → Lexer → Bool
before_else_if lexeme l =
    bytes_eq lexeme (codes "else") && (ltb l.pos (size l) && char_at l l.pos == b' ')

-- The position behind the spaces that follow an `else`.
abbrev pub next_word : Lexer → ℕ
next_word l = skip_spaces (drop (l.pos + 1) l.source) (l.pos + 1)

-- `next_pos < source.length() && source.substr(next_pos, 2) == "if"`
abbrev pub is_if_at : Lexer → ℕ → Bool
is_if_at l next_pos =
    ltb next_pos (size l) && bytes_eq (take 2 (drop next_pos l.source)) (codes "if")

-- `else if` is read as the one word `elseif`.
unfoldable pub join_else_if : ℕ → Bytes → Lexer → Bytes × Lexer
join_else_if start_pos lexeme l =
    if before_else_if lexeme l && is_if_at l (next_word l)
    then (
      codes "elseif",
      record l { pos = next_word l + 2; column = l.column + (next_word l + 2 - start_pos) },
    )
    else (lexeme, l)

-- The kind of a word: a keyword, or an identifier.
unfoldable pub word_type : Bytes → TokenType
word_type lexeme = elim (find_text keyword_map lexeme) [ none ↦ identifier_tt | some t ↦ t ]

unfoldable pub handle_symbol : Lexer → Token × Lexer
handle_symbol l =
    let (word, after) = collect alnumeric_set (rest l) l in
    let (lexeme, l') = join_else_if l.pos word after in
    (token l'.line l.column lexeme (word_type lexeme), l')

-- The loop of `handle_asm_block`, inside `suc depth` open braces.
unfoldable pub asm_body : ℕ → Bytes → Lexer → Bytes × Lexer
asm_body depth [] l = ([], l)
asm_body depth (c ∷ cs) l =
    let deeper = asm_body (suc depth) cs (increment 0 1 1 l) in
    let plain = asm_body depth cs (if is_newline c then newline l else increment 0 1 1 l) in
    if c == b'{'
    then (c ∷ deeper.0, deeper.1)
    else if c == b'}'
    then elim depth [
      | ℕ.zero ↦ ([], increment 0 1 1 l)
      | ℕ.suc d ↦ let out = asm_body d cs (increment 0 1 1 l) in (c ∷ out.0, out.1)
    ]
    else (c ∷ plain.0, plain.1)

unfoldable pub handle_asm_block : Lexer → Token × Lexer
handle_asm_block l =
    let (body, l') = asm_body 0 (rest l) l in
    (token l'.line l'.column body shellcode_denoter_tt, l')
