-- ===== src/Parser/Errors.antt =====
-- src/parser/parser.cpp: expressions whose parentheses do not match.
use occult.Common.{◌≡◌, refl, ◌∙◌, inl, not, List, [], ◌∷◌, ◌++◌, All, All-map}
use occult.Lexer.Token
use occult.Lexer.Token.{Token, TokenType, is_type, tag}
use occult.Parser.Cst.{Node, new_node, expr_end}
use occult.Parser.Shunting.{
  Parsed, parsed, parsing_error, then_do, Yard, role, pop_operators, shunt, shunting_yard,
  shunting_yard_stack_cleanup, shunt_all, close_paren,
}
use occult.Parser.Grammar.{Expr, typed, infix_tokens, level, IsGrouped}
use occult.Parser.Yard.{Pending, pop_operators-append, shunt_all-append}
use occult.Parser.Stack.{yard}
use occult.Parser.Expressions.{reads}

cleanup-open :
    (n : _) (ps : List Token) (l : Token) (out : List Node)
    → All (Pending n) ps
    → shunting_yard_stack_cleanup (ps ++ (typed Token.left_paren_tt l ∷ [])) out
      ≡ parsing_error "unmatched left parenthesis" (typed Token.left_paren_tt l)
unfolding shunting_yard_stack_cleanup tag
cleanup-open n [] l out h = refl
cleanup-open n (t ∷ ps) l out h =
    let ((make, e), small, no_paren, no_curly) = h.0 in
    rw (no_paren, no_curly, e) (cleanup-open n ps l (out ++ (make t.lexeme ∷ [])) h.1)

-- A right parenthesis behind a whole expression is an error at that parenthesis, and a left one before a whole
-- expression is an error at that one when the expression has ended.
pub shunt_all-unmatched :
    (e : Expr) (p : Token) (out : List Node)
    → IsGrouped e
    → (shunt_all (infix_tokens e ++ (typed Token.right_paren_tt p ∷ [])) (yard [] out)
        ≡ parsing_error "matching left parenthesis" (typed Token.right_paren_tt p))
      × (then_do
            (shunt_all (typed Token.left_paren_tt p ∷ infix_tokens e) (yard [] out))
            (λ y. shunting_yard_stack_cleanup y.operators y.expr_cst)
          ≡ parsing_error "unmatched left parenthesis" (typed Token.left_paren_tt p))
unfolding shunt_all shunting_yard shunt role pop_operators close_paren
    occult.Parser.Shunting.binds_paren tag
shunt_all-unmatched e p out g =
    let x = reads e [] out g tt in
    let emptied =
      pop_operators-append (λ t. not (is_type Token.left_paren_tt t)) x.ps [] x.now
        (All-map (Pending (level e)) _ x.ps (λ t h. (h.0, rw h.2)) x.pending) in
    let y =
      reads e (typed Token.left_paren_tt p ∷ []) (out ++ (new_node expr_end [] ∷ [])) g
        (refl, inl refl) in
    (
      shunt_all-append (infix_tokens e) (typed Token.right_paren_tt p ∷ []) (yard [] out)
          ∙ rw (x.runs, emptied),
      rw (y.runs) (cleanup-open (level e) y.ps p y.now y.pending),
    )
