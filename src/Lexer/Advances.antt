-- ===== src/Lexer/Advances.antt =====
-- Every handler that `get_next_token` calls consumes a byte and stays within the source. A backslash
-- that ends the source in a literal takes `pos` to one past it.
use occult.Common.{
  ℕ, suc, ◌+◌, ◌-◌, ◌*◌, ◌%◌, ◌≤◌, ◌<◌, ◌≡◌, refl, ◌∙◌, ◌⊎◌, lt→ltb, Bool, true, Option, [], ◌∷◌,
  arith, Bytes, length, drop, length-drop, drop-get_or, inl, inr, bytes_eq, bytes_eq_iff, codes,
  take, length-take, ap, take_while,
}
use occult.Lexer.Token.{TokenType, one, two, three, OperatorType}
use occult.Lexer.Maps.{find_text, comment_map, alnumeric_set, numeric_set}
use occult.Lexer.State.{Lexer, increment, char_at, rest, size, collect}
use occult.Lexer.Scan.{
  skip_line, skip_block, comment_body, handle_comment, handle_literal, join_else_if, skip_spaces,
  handle_asm_block, handle_symbol, is_whitespace, handle_whitespace, handle_whitespace_with_token,
  handle_delimiter, next_word,
}
use occult.Lexer.Number.{
  radix_number, octal_digits, octal_number, normal_number, zero_number, handle_numeric,
  is_number_byte, is_hex, is_binary, uintptr_mod,
}
use occult.Lexer.Step.{operator_token, starts_comment}
use occult.Lexer.Moves.{
  Moves, collect-take_while, length-take_while, skip_line-Moves, skip_block-Moves,
  handle_escape_sequences-Moves, asm_body-Moves,
}

-- At least `lo` bytes are consumed, and `pos` is at most one past the source.
abbrev pub Advances : ℕ → Lexer → Lexer → Type 0
Advances lo l l' = Moves lo (size l + 1 - l.pos) l l'

pub Advances-trans :
    {a b : ℕ} {l m n : Lexer} → Advances a l m → Advances b m n → Advances (a + b) l n
Advances-trans {l = l} {m = m} p q = record {
  same_source = q.same_source ∙ p.same_source;
  at_least = omega arith;
  at_most = omega (arith, ap length p.same_source);
}

pub rest-cons : (l : Lexer) → l.pos < size l → rest l ≡ char_at l l.pos ∷ drop (suc l.pos) l.source
rest-cons l h = drop-get_or l.source l.pos 0 h

length-rest : (l : Lexer) → length (rest l) ≡ size l - l.pos
length-rest l = length-drop l.pos l.source

comment_body-Moves :
    (kind : TokenType) (l : Lexer) → Moves 0 (size l - l.pos) l (comment_body kind l)
unfolding comment_body
comment_body-Moves kind l =
    ground (arith, skip_line-Moves (rest l) l, skip_block-Moves (rest l) l, length-rest l)

collect-Moves :
    (test : ℕ → Bool) (l : Lexer) → Moves 0 (size l - l.pos) l (collect test (rest l) l).1
collect-Moves test l =
    rw (collect-take_while test (rest l) l)
      (ground (arith, length-take_while test (rest l), length-rest l))

take_while-pos :
    (test : ℕ → Bool) (c : ℕ) (cs : Bytes) → test c ≡ true → 1 ≤ length (take_while test (c ∷ cs))
unfolding take_while
take_while-pos test c cs t = rw t (omega arith)

-- Where the test holds of the byte at `pos`, that byte is consumed.
collect-Advances :
    (test : ℕ → Bool) (l : Lexer)
    → l.pos < size l
    → test (char_at l l.pos) ≡ true
    → Moves 1 (size l - l.pos) l (collect test (rest l) l).1
collect-Advances test l h t =
    let some_taken =
      rw (← rest-cons l h) at
        (take_while-pos test (char_at l l.pos) (drop (suc l.pos) l.source) t) in
    rw (collect-take_while test (rest l) l)
      (ground (arith, some_taken, length-take_while test (rest l), length-rest l))

pub handle_literal-Advances :
    (type : ℕ) (kind : TokenType) (l : Lexer)
    → l.pos < size l
    → Advances 1 l (handle_literal type kind l).1
unfolding handle_literal
handle_literal-Advances type kind l h = ground (
  arith,
  handle_escape_sequences-Moves type (rest (increment 0 1 1 l)) (increment 0 1 1 l),
  length-rest (increment 0 1 1 l),
)

pub handle_asm_block-Moves : (l : Lexer) → Moves 0 (size l - l.pos) l (handle_asm_block l).1
unfolding handle_asm_block
handle_asm_block-Moves l = ground (arith, asm_body-Moves 0 (rest l) l, length-rest l)

pub handle_delimiter-Advances : (l : Lexer) → l.pos < size l → Advances 1 l (handle_delimiter l).1
unfolding handle_delimiter
handle_delimiter-Advances l h = ground arith

pub handle_whitespace-Moves : (l : Lexer) → Moves 0 1 l (handle_whitespace l)
unfolding handle_whitespace
handle_whitespace-Moves l = ground arith

pub handle_whitespace_with_token-Advances :
    (l : Lexer)
    → l.pos < size l
    → is_whitespace (char_at l l.pos) ≡ true
    → Advances 1 l (handle_whitespace_with_token l).1
unfolding handle_whitespace_with_token
handle_whitespace_with_token-Advances l h w = ground arith

-- The bytes of an operator.
abbrev pub width : OperatorType → ℕ
width one = 1
width two = 2
width three = 3

pub operator_token-Advances :
    (op : OperatorType) (l : Lexer)
    → l.pos + width op ≤ size l
    → Advances 1 l (operator_token op l).1
unfolding operator_token
operator_token-Advances one l h = ground arith
operator_token-Advances two l h = ground arith
operator_token-Advances three l h = ground arith

-- Behind `//` the comment is the line, and behind `/*` it is a block.
pub handle_comment_line :
    (l : Lexer)
    → l.pos + 1 < size l
    → char_at l l.pos ≡ b'/'
    → char_at l (l.pos + 1) ≡ b'/'
    → handle_comment l ≡ skip_line (rest (increment 0 2 2 l)) (increment 0 2 2 l)
unfolding handle_comment find_text comment_map bytes_eq skip_line comment_body
handle_comment_line l h p q = rw (lt→ltb (l.pos + 1) (size l) h, p, q) refl

pub handle_comment_block :
    (l : Lexer)
    → l.pos + 1 < size l
    → char_at l l.pos ≡ b'/'
    → char_at l (l.pos + 1) ≡ b'*'
    → handle_comment l ≡ skip_block (rest (increment 0 2 2 l)) (increment 0 2 2 l)
unfolding handle_comment find_text comment_map bytes_eq skip_block comment_body
handle_comment_block l h p q = rw (lt→ltb (l.pos + 1) (size l) h, p, q) refl

-- What `starts_comment` tests.
pub starts_comment_lem :
    (l : Lexer)
    → starts_comment l ≡ true
    → (l.pos + 1 < size l)
      × (char_at l l.pos ≡ b'/')
      × ((char_at l (l.pos + 1) ≡ b'/') ⊎ (char_at l (l.pos + 1) ≡ b'*'))
starts_comment_lem l s = ground arith

pub handle_comment-Advances :
    (l : Lexer) → starts_comment l ≡ true → Advances 2 l (handle_comment l)
handle_comment-Advances l s =
    let (h, p, q) = starts_comment_lem l s in
    let l' = increment 0 2 2 l in
    elim q [
      | inl q ↦
          rw (handle_comment_line l h p q)
            (ground (arith, skip_line-Moves (rest l') l', length-rest l'))
      | inr q ↦
          rw (handle_comment_block l h p q)
            (ground (arith, skip_block-Moves (rest l') l', length-rest l'))
    ]

skip_spaces-le : (cs : Bytes) (n : ℕ) → n ≤ skip_spaces cs n
unfolding skip_spaces
skip_spaces-le [] n = omega arith
skip_spaces-le (c ∷ cs) n = ground (arith, skip_spaces-le cs (n + 1))

length_of_if : (xs : Bytes) → bytes_eq xs (codes "if") ≡ true → length xs ≡ 2
length_of_if xs h = ap length ((bytes_eq_iff xs (codes "if")).0 h)

join_else_if-Moves :
    (start : ℕ) (lexeme : Bytes) (l : Lexer)
    → l.pos ≤ size l
    → Moves 0 (size l - l.pos) l (join_else_if start lexeme l).1
unfolding join_else_if
join_else_if-Moves start lexeme l h = ground (
  arith,
  skip_spaces-le (drop (l.pos + 1) l.source) (l.pos + 1),
  length_of_if (take 2 (drop (next_word l) l.source)),
  length-take 2 (drop (next_word l) l.source),
  length-drop (next_word l) l.source,
)

pub handle_symbol-Advances :
    (l : Lexer)
    → l.pos < size l
    → alnumeric_set (char_at l l.pos) ≡ true
    → Advances 1 l (handle_symbol l).1
unfolding handle_symbol
handle_symbol-Advances l h t =
    let read = collect alnumeric_set (rest l) l in
    let first = collect-Advances alnumeric_set l h t in
    ground (arith, first, join_else_if-Moves l.pos read.0 read.1)

octal_digits-Moves :
    (v : ℕ) (cs : Bytes) (l : Lexer) → Moves 0 (length cs) l (octal_digits v cs l).1
unfolding octal_digits
octal_digits-Moves v [] l = ground arith
octal_digits-Moves v (c ∷ cs) l =
    ground (arith, octal_digits-Moves ((v * 8 + (c - b'0')) % uintptr_mod) cs (increment 0 1 1 l))

octal_number-Moves : (l : Lexer) → Moves 0 (size l - l.pos) l (octal_number l).1
unfolding octal_number
octal_number-Moves l = ground (arith, octal_digits-Moves 0 (rest l) l, length-rest l)

radix_number-Moves :
    (base : ℕ) (test : ℕ → Bool) (l : Lexer)
    → Moves 0 (size l - l.pos) l (radix_number base test l).1
unfolding radix_number
radix_number-Moves base test l = ground (arith, collect-Moves test l)

-- A step forth and back in `pos` and `column`.
step_back : Lexer → Lexer
step_back l = record l { pos = l.pos - 1; column = l.column - 1 }

step_back-increment : (l : Lexer) → step_back (increment 0 1 1 l) ≡ l
unfolding step_back
step_back-increment l = ground arith

module _ (to_parsable_double : Bytes → Option Bytes) where
  normal_number-Advances :
      (l : Lexer)
      → l.pos < size l
      → numeric_set (char_at l l.pos) ≡ true
      → Moves 1 (size l - l.pos) l (normal_number to_parsable_double l).1
  unfolding normal_number
  normal_number-Advances l h t =
      collect-Advances is_number_byte l h (unfold is_number_byte in ground (arith, t))

  zero_number-Advances :
      (c : ℕ) (l : Lexer)
      → l.pos < size l
      → char_at l l.pos ≡ b'0'
      → Advances 1 l (zero_number to_parsable_double c (increment 0 1 1 l)).1
  unfolding zero_number step_back
  zero_number-Advances c l h z =
      let l' = increment 0 1 1 l in
      let l'' = increment 0 1 1 l' in
      ground (
        arith,
        radix_number-Moves 16 is_hex l'',
        radix_number-Moves 2 is_binary l'',
        octal_number-Moves l',
        step_back-increment l,
        normal_number-Advances l h (unfold numeric_set in rw z refl),
      )

  pub handle_numeric-Advances :
      (l : Lexer)
      → l.pos < size l
      → numeric_set (char_at l l.pos) ≡ true
      → Advances 1 l (handle_numeric to_parsable_double l).1
  unfolding handle_numeric
  handle_numeric-Advances l h t =
      ground (arith, zero_number-Advances (char_at l (l.pos + 1)) l h, normal_number-Advances l h t)
