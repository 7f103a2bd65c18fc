-- ===== src/Parser/Grammar.antt =====
-- Expressions as trees: the tokens that they are written with, and the nodes of their postfix form.
-- This is the independent description of what the algorithm in src/parser/parser.cpp computes.
use occult.Common.{ℕ, ◌≤◌, ◌<◌, none, some, List, [], ◌∷◌, ◌++◌, map}
use occult.Lexer.Token
use occult.Lexer.Token.{Token, TokenType}
use occult.Parser.Cst.{Node, new_node, expr_start, expr_end}
use occult.Parser.Maps.{precedence, cst_map}

pub data Operand : Type 0 where
  number float string char false_keyword true_keyword name : Operand

pub data UnaryOp : Type 0 where
  bitwise_not minus plus logical_not : UnaryOp

-- The binary operators but for assignment.
pub data BinaryOp : Type 0 where
  multiply division modulo add subtract rshift lshift greater less less_equal : BinaryOp
  greater_equal equals not_equals bit_and bit_xor bit_or both either : BinaryOp

unfoldable pub operand_type : Operand → TokenType
operand_type number = Token.number_literal_tt
operand_type float = Token.float_literal_tt
operand_type string = Token.string_literal_tt
operand_type char = Token.char_literal_tt
operand_type false_keyword = Token.false_keyword_tt
operand_type true_keyword = Token.true_keyword_tt
operand_type name = Token.identifier_tt

unfoldable pub unary_type : UnaryOp → TokenType
unary_type bitwise_not = Token.unary_bitwise_not_tt
unary_type minus = Token.unary_minus_operator_tt
unary_type plus = Token.unary_plus_operator_tt
unary_type logical_not = Token.unary_not_operator_tt

unfoldable pub binary_type : BinaryOp → TokenType
binary_type multiply = Token.multiply_operator_tt
binary_type division = Token.division_operator_tt
binary_type modulo = Token.modulo_operator_tt
binary_type add = Token.add_operator_tt
binary_type subtract = Token.subtract_operator_tt
binary_type rshift = Token.bitwise_rshift_tt
binary_type lshift = Token.bitwise_lshift_tt
binary_type greater = Token.greater_than_operator_tt
binary_type less = Token.less_than_operator_tt
binary_type less_equal = Token.less_than_or_equal_operator_tt
binary_type greater_equal = Token.greater_than_or_equal_operator_tt
binary_type equals = Token.equals_operator_tt
binary_type not_equals = Token.not_equals_operator_tt
binary_type bit_and = Token.bitwise_and_tt
binary_type bit_xor = Token.xor_operator_tt
binary_type bit_or = Token.bitwise_or_tt
binary_type both = Token.and_operator_tt
binary_type either = Token.or_operator_tt

-- An operand or an expression in parentheses may have unary operators before it. A token gives its
-- place and its lexeme; its type is that of the constructor.
pub data Expr : Type 0 where
  literal : List (UnaryOp × Token) → Operand → Token → Expr
  paren : List (UnaryOp × Token) → Token → Token → Expr → Expr
  binary : BinaryOp → Token → Expr → Expr → Expr

abbrev pub typed : TokenType → Token → Token
typed type t = record t { type = type }

abbrev pub unary_token : UnaryOp × Token → Token
unary_token u = typed (unary_type u.0) u.1

unfoldable pub infix_tokens : Expr → List Token
infix_tokens (literal us k t) = map unary_token us ++ (typed (operand_type k) t ∷ [])
infix_tokens (paren us l r e) =
    map unary_token us
    ++ (typed Token.left_paren_tt l ∷ (infix_tokens e ++ (typed Token.right_paren_tt r ∷ [])))
infix_tokens (binary o t l r) = infix_tokens l ++ (typed (binary_type o) t ∷ infix_tokens r)

-- The node that the table gives for a token.
unfoldable pub node_of : Token → Node
node_of t = elim (cst_map t.type) [ none ↦ new_node expr_end [] | some make ↦ make t.lexeme ]

-- Operators in the order in which they come off a stack that they went on in order.
unfoldable pub last_first : List Token → List Token
last_first [] = []
last_first (t ∷ ts) = last_first ts ++ (t ∷ [])

abbrev pub unary_nodes : List (UnaryOp × Token) → List Node
unary_nodes us = map node_of (last_first (map unary_token us))

-- Parentheses leave a node at either end; unary operators before them stand inside.
unfoldable pub postfix : Expr → List Node
postfix (literal us k t) = node_of (typed (operand_type k) t) ∷ unary_nodes us
postfix (paren us l r e) =
    new_node expr_end [] ∷ (postfix e ++ (unary_nodes us ++ (new_node expr_start [] ∷ [])))
postfix (binary o t l r) = postfix l ++ (postfix r ++ (node_of (typed (binary_type o) t) ∷ []))

-- The precedence of the outermost operator; a larger number binds less.
unfoldable pub level : Expr → ℕ
level (literal us k t) = 2
level (paren us l r e) = 2
level (binary o t l r) = precedence (binary_type o)

-- Without parentheses, a left operand binds as much as its operator, a right operand more.
abbrev pub IsGrouped : Expr → Type 0
IsGrouped (literal us k t) = Unit
IsGrouped (paren us l r e) = IsGrouped e
IsGrouped (binary o t l r) =
    (level l ≤ precedence (binary_type o))
    × (level r < precedence (binary_type o))
    × IsGrouped l
    × IsGrouped r
