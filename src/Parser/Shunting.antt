-- ===== src/Parser/Shunting.antt =====
-- src/parser/parser.cpp: `shunting_yard`, `shunting_yard_stack_cleanup` and `is_castable`. The top of
-- the operator stack stands first in its list.
use occult.Common.{
  Bool, true, false, not, ◌&&◌, ltb, leb, if◌then◌else◌, none, some, List, [], ◌∷◌, ◌++◌, String,
}
use occult.Lexer.Token.{
  Token, TokenType, is_type, number_literal_tt, float_literal_tt, string_literal_tt,
  char_literal_tt, false_keyword_tt, true_keyword_tt, identifier_tt, unary_bitwise_not_tt,
  unary_minus_operator_tt, unary_plus_operator_tt, unary_not_operator_tt, left_paren_tt,
  right_paren_tt, assignment_tt, dereference_operator_tt, right_curly_bracket_tt, int64_keyword_tt,
  int32_keyword_tt, int16_keyword_tt, int8_keyword_tt, uint64_keyword_tt, uint32_keyword_tt,
  uint16_keyword_tt, uint8_keyword_tt, float32_keyword_tt, float64_keyword_tt,
}
use occult.Parser.Cst.{Node, new_node, expr_start, expr_end}
use occult.Parser.Maps.{precedence, cst_map}

-- A result, or a `parsing_error` with what was expected and the token.
pub data Parsed {ℓ} (A : Type ℓ) : Type ℓ where
  parsed : A → Parsed A
  parsing_error : String → Token → Parsed A

abbrev pub then_do {ℓ κ} : {A : Type ℓ} {B : Type κ} → Parsed A → (A → Parsed B) → Parsed B
then_do (parsed a) next = next a
then_do (parsing_error expected t) next = parsing_error expected t

-- The operator stack and the nodes so far.
pub record Yard : Type 0 where
  pub operators : List Token
  pub expr_cst : List Node

-- The cases of the switch.
pub data Role : Type 0 where
  operand unary_operator left_paren right_paren binary_operator : Role

unfoldable pub role : TokenType → Role
role number_literal_tt = operand
role float_literal_tt = operand
role string_literal_tt = operand
role char_literal_tt = operand
role false_keyword_tt = operand
role true_keyword_tt = operand
role identifier_tt = operand
role unary_bitwise_not_tt = unary_operator
role unary_minus_operator_tt = unary_operator
role unary_plus_operator_tt = unary_operator
role unary_not_operator_tt = unary_operator
role left_paren_tt = left_paren
role right_paren_tt = right_paren
role _ = binary_operator

-- The operators that a right parenthesis takes off the stack behind its left one.
unfoldable pub binds_paren : TokenType → Bool
binds_paren unary_bitwise_not_tt = true
binds_paren unary_minus_operator_tt = true
binds_paren unary_plus_operator_tt = true
binds_paren unary_not_operator_tt = true
binds_paren dereference_operator_tt = true
binds_paren _ = false

-- Whether the operator on top of the stack goes out before `curr` goes on it.
unfoldable pub yields_to : TokenType → TokenType → Bool
yields_to curr top =
    not (is_type left_paren_tt top)
    && (if is_type assignment_tt curr
        then ltb (precedence top) (precedence curr)
        else leb (precedence top) (precedence curr))

-- The loops that take operators off the stack while a test holds, and append their nodes.
unfoldable pub pop_operators : (TokenType → Bool) → List Token → List Node → Parsed Yard
pop_operators test [] out = parsed (record { operators = []; expr_cst = out })
pop_operators test (t ∷ ts) out =
    if test t.type
    then elim (cst_map t.type) [
      | none ↦
          parsing_error "valid operator or operand (possibly a missing ';' before this token)" t
      | some make ↦ pop_operators test ts (out ++ (make t.lexeme ∷ []))
    ]
    else parsed (record { operators = t ∷ ts; expr_cst = out })

-- A right parenthesis, behind the operators above the left one.
unfoldable pub close_paren : Token → Yard → Parsed Yard
close_paren curr y = elim y.operators as (λ _. Parsed Yard) [
  | [] ↦ parsing_error "matching left parenthesis" curr
  | (t ∷ ts) ↦
      if is_type left_paren_tt t.type
      then then_do (pop_operators binds_paren ts y.expr_cst)
          (λ z. parsed (record z { expr_cst = z.expr_cst ++ (new_node expr_start [] ∷ []) }))
      else parsing_error "matching left parenthesis" curr
]

unfoldable pub push_operand : Token → Yard → Parsed Yard
push_operand curr y = elim (cst_map curr.type) [
  | none ↦ parsed y
  | some make ↦ parsed (record y { expr_cst = y.expr_cst ++ (make curr.lexeme ∷ []) })
]

unfoldable pub shunt : Role → Token → Yard → Parsed Yard
shunt operand curr y = push_operand curr y
shunt unary_operator curr y = parsed (record y { operators = curr ∷ y.operators })
shunt left_paren curr y = parsed (record {
  operators = curr ∷ y.operators;
  expr_cst = y.expr_cst ++ (new_node expr_end [] ∷ []);
})
shunt right_paren curr y =
    then_do (pop_operators (λ t. not (is_type left_paren_tt t)) y.operators y.expr_cst)
      (close_paren curr)
shunt binary_operator curr y =
    then_do (pop_operators (yields_to curr.type) y.operators y.expr_cst)
      (λ z. parsed (record z { operators = curr ∷ z.operators }))

unfoldable pub shunting_yard : Token → Yard → Parsed Yard
shunting_yard curr y = shunt (role curr.type) curr y

unfoldable pub shunting_yard_stack_cleanup : List Token → List Node → Parsed (List Node)
shunting_yard_stack_cleanup [] out = parsed out
shunting_yard_stack_cleanup (t ∷ ts) out =
    if is_type left_paren_tt t.type
    then parsing_error "unmatched left parenthesis" t
    else if is_type right_curly_bracket_tt t.type
    then parsing_error "unmatched right curly bracket" t
    else elim (cst_map t.type) [
      | none ↦
          parsing_error "valid operator or operand (possibly a missing ';' before this token)" t
      | some make ↦ shunting_yard_stack_cleanup ts (out ++ (make t.lexeme ∷ []))
    ]

-- The tokens of an expression, one round of `shunting_yard` each.
unfoldable pub shunt_all : List Token → Yard → Parsed Yard
shunt_all [] y = parsed y
shunt_all (t ∷ ts) y = then_do (shunting_yard t y) (shunt_all ts)

unfoldable pub is_castable : TokenType → Bool
is_castable int64_keyword_tt = true
is_castable int32_keyword_tt = true
is_castable int16_keyword_tt = true
is_castable int8_keyword_tt = true
is_castable uint64_keyword_tt = true
is_castable uint32_keyword_tt = true
is_castable uint16_keyword_tt = true
is_castable uint8_keyword_tt = true
is_castable float32_keyword_tt = true
is_castable float64_keyword_tt = true
is_castable _ = false
