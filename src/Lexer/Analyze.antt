-- ===== src/Lexer/Analyze.antt =====
-- src/lexer/lexer.cpp: `analyze`. Its loops run on fuel; Lexer.Total has how much is enough, and
-- Lexer.Stuck the sources on which no fuel is.
use occult.Common.{
  ℕ, zero, suc, Bool, ◌||◌, Option, none, some, List, [], ◌∷◌, ◌++◌, if◌then◌else◌, Bytes, codes,
  ◌>>=◌,
}
use occult.Lexer.Token.{
  TokenType, tag, is_type, Token, token, left_paren_tt, comma_tt, left_curly_bracket_tt,
  semicolon_tt, end_of_file_tt, return_keyword_tt, not_equals_operator_tt, equals_operator_tt,
  greater_than_operator_tt, less_than_operator_tt, greater_than_or_equal_operator_tt,
  less_than_or_equal_operator_tt, assignment_tt, add_assign_tt, sub_assign_tt, mul_assign_tt,
  div_assign_tt, mod_assign_tt, and_assign_tt, or_assign_tt, xor_assign_tt, lshift_assign_tt,
  rshift_assign_tt, multiply_operator_tt, division_operator_tt, modulo_operator_tt, add_operator_tt,
  subtract_operator_tt, bitwise_and_tt, bitwise_or_tt, xor_operator_tt, bitwise_lshift_tt,
  bitwise_rshift_tt, unkown_tt, asm_keyword_tt, right_curly_bracket_tt, unary_plus_operator_tt,
  unary_minus_operator_tt,
}
use occult.Lexer.State.{Lexer, size}
use occult.Lexer.Scan.{handle_asm_block}
use occult.Lexer.Step.{get_next_token}

-- The kinds of token behind which `+` and `-` are unary.
unfoldable pub unary_context : List TokenType
unary_context =
    left_paren_tt ∷ comma_tt ∷ left_curly_bracket_tt ∷ semicolon_tt ∷ end_of_file_tt
    ∷ return_keyword_tt ∷ not_equals_operator_tt ∷ equals_operator_tt ∷ greater_than_operator_tt
    ∷ less_than_operator_tt ∷ greater_than_or_equal_operator_tt ∷ less_than_or_equal_operator_tt
    ∷ assignment_tt ∷ add_assign_tt ∷ sub_assign_tt ∷ mul_assign_tt ∷ div_assign_tt ∷ mod_assign_tt
    ∷ and_assign_tt ∷ or_assign_tt ∷ xor_assign_tt ∷ lshift_assign_tt ∷ rshift_assign_tt
    ∷ multiply_operator_tt ∷ division_operator_tt ∷ modulo_operator_tt ∷ add_operator_tt
    ∷ subtract_operator_tt ∷ bitwise_and_tt ∷ bitwise_or_tt ∷ xor_operator_tt ∷ bitwise_lshift_tt
    ∷ bitwise_rshift_tt ∷ []

unfoldable pub one_of : List TokenType → TokenType → Bool
unfolding tag
one_of [] t = Bool.false
one_of (u ∷ us) t = is_type t u || one_of us t

unfoldable pub is_unary_context : TokenType → Bool
is_unary_context prev_type = one_of unary_context prev_type

-- The rewriting of `+` and `-` by the kind of the token before.
unfoldable pub mark_unary : TokenType → Token → Token
unfolding tag
mark_unary prev t =
    if is_unary_context prev
    then if is_type t.type add_operator_tt
      then record t { type = unary_plus_operator_tt; lexeme = codes "unary_plus" }
      else if is_type t.type subtract_operator_tt
      then record t { type = unary_minus_operator_tt; lexeme = codes "unary_minus" }
      else t
    else t

-- The state of the loop behind its body: the kind of the last token, the stream, and the lexer.
pub record Progress : Type 0 where
  pub previous_token_type : TokenType
  pub token_stream : List Token
  pub here : Lexer

module _ (to_parsable_double : Bytes → Option Bytes) where
  -- `get_next_token()`, with fuel for a comment in every byte.
  unfoldable pub next : Lexer → Option (Token × Lexer)
  next l = get_next_token to_parsable_double (suc (size l)) l

  -- `get_next_token()`, again while the token is unknown.
  unfoldable pub next_known : ℕ → Lexer → Option (Token × Lexer)
  unfolding tag
  next_known zero l = none
  next_known (suc fuel) l = do
    r ← next l
    let more = next_known fuel r.1
    if is_type r.0.type unkown_tt then more else some r

  -- Behind `asm`: a return type, a brace, the body, and the closing brace, whose bytes the body
  -- has consumed.
  unfoldable pub asm_tokens : ℕ → List Token → Lexer → Option Progress
  asm_tokens fuel out l = do
    ret_type ← next_known fuel l
    open_brace ← next_known fuel ret_type.1
    let body = handle_asm_block open_brace.1
    some (record {
      previous_token_type = right_curly_bracket_tt;
      token_stream =
          out
          ++ ret_type.0
            ∷ open_brace.0
            ∷ body.0
            ∷ token body.1.line body.1.column (codes "}") right_curly_bracket_tt
            ∷ [];
      here = body.1;
    })

  -- The body of the loop at a token that is not unknown.
  unfoldable pub push_token : ℕ → List Token → Token → Lexer → Option Progress
  unfolding tag
  push_token fuel out t l =
      if is_type t.type asm_keyword_tt
      then asm_tokens fuel (out ++ t ∷ []) l
      else some (record { previous_token_type = t.type; token_stream = out ++ t ∷ []; here = l })

  -- The body of the loop, up to its last call of `get_next_token`.
  unfoldable pub absorb : ℕ → TokenType → List Token → Token → Lexer → Option Progress
  unfolding tag
  absorb fuel prev out t l =
      if is_type t.type unkown_tt
      then some (record { previous_token_type = prev; token_stream = out; here = l })
      else push_token fuel out (mark_unary prev t) l

  -- `while (token.tt != end_of_file_tt)`, and the last `push_back`.
  unfoldable pub analyze_loop :
      ℕ → TokenType → List Token → Token → Lexer → Option (List Token × Lexer)
  unfolding tag
  analyze_loop zero prev out t l = none
  analyze_loop (suc fuel) prev out t l =
      let more = absorb fuel prev out t l >>= λ p.
      next p.here >>= λ r. analyze_loop fuel p.previous_token_type p.token_stream r.0 r.1 in
      if is_type t.type end_of_file_tt then some (out ++ t ∷ [], l) else more

  unfoldable pub analyze : ℕ → Lexer → Option (List Token × Lexer)
  analyze fuel l = do
    first ← next l
    r ← analyze_loop fuel end_of_file_tt [] first.0 first.1
    some (r.0, record (r.1) { stream = r.0 })
