-- ===== src/Parser/Tests.antt =====
-- The shunting-yard algorithm on small expressions, and its theorems at concrete inputs.
use occult.Common.{◌≡◌, refl, Bytes, codes, [], ◌∷◌, ◌++◌, arith}
use occult.Lexer.Token
use occult.Lexer.Token.{Token, token}
use occult.Parser.Cst
use occult.Parser.Cst.{Node, new_node}
use occult.Parser.Shunting.{parsed, parsing_error, then_do, shunting_yard_stack_cleanup, shunt_all}
use occult.Parser.Grammar.{
  Expr, literal, paren, binary, Operand, UnaryOp, BinaryOp, typed, infix_tokens, postfix,
}
use occult.Parser.Expressions
use occult.Parser.Stack.{yard}
use occult.Parser.Errors

-- The type of such a token is that of its place in an expression.
abbrev text : Bytes → Token
text lexeme = token 1 1 lexeme Token.identifier_tt

-- a - b * -(c + 1)
abbrev sample : Expr
sample = binary BinaryOp.subtract (text (codes "-")) (literal [] Operand.name (text (codes "a"))) (
    binary BinaryOp.multiply (text (codes "*")) (literal [] Operand.name (text (codes "b"))) (
      paren ((UnaryOp.minus, text (codes "-")) ∷ []) (text (codes "(")) (text (codes ")")) (
        binary BinaryOp.add (text (codes "+")) (literal [] Operand.name (text (codes "c")))
          (literal [] Operand.number (text (codes "1"))))))

sample-postfix :
    postfix sample
    ≡ new_node Cst.identifier (codes "a")
      ∷ new_node Cst.identifier (codes "b")
      ∷ new_node Cst.expr_end []
      ∷ new_node Cst.identifier (codes "c")
      ∷ new_node Cst.number_literal (codes "1")
      ∷ new_node Cst.add_operator (codes "+")
      ∷ new_node Cst.unary_minus_operator (codes "-")
      ∷ new_node Cst.expr_start []
      ∷ new_node Cst.multiply_operator (codes "*")
      ∷ new_node Cst.subtract_operator (codes "-")
      ∷ []
unfolding postfix occult.Parser.Grammar.node_of occult.Parser.Maps.cst_map
    occult.Parser.Grammar.last_first occult.Parser.Grammar.operand_type
    occult.Parser.Grammar.binary_type occult.Parser.Grammar.unary_type
sample-postfix = refl

shunt_all-infix_tokens_example :
    then_do
      (shunt_all (infix_tokens sample) (yard [] []))
      (λ y. shunting_yard_stack_cleanup y.operators y.expr_cst)
    ≡ parsed (postfix sample)
unfolding occult.Parser.Grammar.level occult.Parser.Grammar.binary_type
    occult.Parser.Maps.precedence
shunt_all-infix_tokens_example = Expressions.shunt_all-infix_tokens sample [] (
  omega arith,
  omega arith,
  tt,
  (omega arith, omega arith, tt, (omega arith, omega arith, tt, tt)),
)

shunt_all-unmatched_example :
    (shunt_all
        (infix_tokens (literal [] Operand.number (text (codes "1")))
          ++ (typed Token.right_paren_tt (text (codes ")")) ∷ []))
        (yard [] [])
      ≡ parsing_error "matching left parenthesis" (typed Token.right_paren_tt (text (codes ")"))))
    × (then_do
          (shunt_all
            (typed Token.left_paren_tt (text (codes ")"))
              ∷ infix_tokens (literal [] Operand.number (text (codes "1"))))
            (yard [] []))
          (λ y. shunting_yard_stack_cleanup y.operators y.expr_cst)
        ≡ parsing_error "unmatched left parenthesis" (typed Token.left_paren_tt (text (codes ")"))))
shunt_all-unmatched_example =
    Errors.shunt_all-unmatched (literal [] Operand.number (text (codes "1"))) (text (codes ")")) []
      tt
