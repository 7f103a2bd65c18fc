-- ===== src/Parser/Expressions.antt =====
-- src/parser/parser.cpp: `shunting_yard` against the postfix form of expressions.
use occult.Common.{
  ◌≤◌, ◌<◌, ◌≡◌, refl, sym, ap, ◌∙◌, inl, inr, true, not, List, [], ◌∷◌, ◌++◌, map, All-append,
  All-map, append-append, append-nil, arith,
}
use occult.Lexer.Token
use occult.Lexer.Token.{Token, TokenType, is_type, tag}
use occult.Parser.Cst.{Node, new_node, expr_start, expr_end}
use occult.Parser.Maps.{precedence}
use occult.Parser.Shunting.{
  parsed, then_do, role, binds_paren, yields_to, pop_operators, shunt, shunting_yard,
  shunting_yard_stack_cleanup, shunt_all, close_paren,
}
use occult.Parser.Grammar.{
  Expr, literal, paren, binary, UnaryOp, BinaryOp, binary_type, node_of, last_first, typed,
  unary_token, unary_nodes, infix_tokens, postfix, level, IsGrouped,
}
use occult.Parser.Yard.{
  Pending, Below, binary_lem, pop_operators-append, cleanup-Pending, shunt_all-append,
}
use occult.Parser.Stack.{
  shunt_unary, unary-Pending, yields_to-Pending, Below-yields_to, Below-binds_paren, literal-Read,
  Below-more, Pending-more, Read, yard,
}

pub open_stays :
    (l : Token) (ts : List Token) (out : List Node)
    → let open_token = typed Token.left_paren_tt l in
      pop_operators (λ t. not (is_type Token.left_paren_tt t)) (open_token ∷ ts) out
      ≡ parsed (yard (open_token ∷ ts) out)
unfolding pop_operators tag
open_stays l ts out = refl

close_open :
    (l r : Token) (ts s : List Token) (out now : List Node)
    → pop_operators binds_paren ts out ≡ parsed (yard s now)
    → close_paren r (yard (typed Token.left_paren_tt l ∷ ts) out)
      ≡ parsed (yard s (now ++ (new_node expr_start [] ∷ [])))
unfolding close_paren tag
close_open l r ts s out now h = rw h

append_three :
    (out e u : List Node) (a b : Node)
    → (((out ++ (a ∷ [])) ++ e) ++ u) ++ (b ∷ []) ≡ out ++ (a ∷ (e ++ (u ++ (b ∷ []))))
append_three out e u a b = simp append-append

paren-Read :
    (us : List (UnaryOp × Token)) (l r : Token) (e : Expr) (s : List Token) (out : List Node)
    → Below 2 s
    → ((s' : List Token) (out' : List Node) → Below (level e) s' → Read e s' out')
    → Read (paren us l r e) s out
unfolding infix_tokens level postfix shunt_all shunting_yard shunt role close_paren binds_paren tag
paren-Read us l r e s out below inside =
    let front = last_first (map unary_token us) in
    let open_token = typed Token.left_paren_tt l in
    let close_token = typed Token.right_paren_tt r in
    let first = out ++ (new_node expr_end [] ∷ []) in
    let x = inside (open_token ∷ (front ++ s)) first (refl, inl refl) in
    let emptied =
      pop_operators-append (λ t. not (is_type Token.left_paren_tt t)) x.ps
        (open_token ∷ (front ++ s)) x.now
        (All-map (Pending (level e)) _ x.ps (λ t h. (h.0, rw h.2)) x.pending) in
    let bound = pop_operators-append binds_paren front s (x.now ++ map node_of x.ps) (
      All-map (λ t. Pending 2 t × (binds_paren t.type ≡ true)) _ front (λ t h. (h.0.0, h.1))
        (unary-Pending us)) in
    record {
      ps = [];
      now = ((x.now ++ map node_of x.ps) ++ map node_of front) ++ (new_node expr_start [] ∷ []);
      pending = tt;
      runs =
          shunt_all-append (map unary_token us)
            (open_token ∷ (infix_tokens e ++ (close_token ∷ []))) (yard s out)
          ∙ rw (
            shunt_unary us s out,
            shunt_all-append (infix_tokens e) (close_token ∷ [])
                (yard (open_token ∷ (front ++ s)) first),
            x.runs,
            emptied,
            open_stays l (front ++ s) (x.now ++ map node_of x.ps),
            close_open l close_token (front ++ s) s _ _ (bound ∙ Below-binds_paren 2 s _ below),
          );
      nodes =
          append-nil _
          ∙ ap (λ ns. (ns ++ map node_of front) ++ (new_node expr_start [] ∷ [])) x.nodes
          ∙ append_three out (postfix e) (unary_nodes us) (new_node expr_end [])
              (new_node expr_start []);
    }

append_four : (a b c d : List Node) → ((a ++ b) ++ c) ++ d ≡ a ++ (b ++ (c ++ d))
append_four a b c d = simp append-append

map-append : (xs ys : List Token) → map node_of (xs ++ ys) ≡ map node_of xs ++ map node_of ys
map-append [] ys = refl
map-append (t ∷ xs) ys = ap (◌∷◌ (node_of t)) (map-append xs ys)

binary-Read :
    (o : BinaryOp) (t : Token) (l r : Expr) (s : List Token) (out : List Node)
    → Below (precedence (binary_type o)) s
    → level l ≤ precedence (binary_type o)
    → level r < precedence (binary_type o)
    → ((s' : List Token) (out' : List Node) → Below (level l) s' → Read l s' out')
    → ((s' : List Token) (out' : List Node) → Below (level r) s' → Read r s' out')
    → Read (binary o t l r) s out
unfolding infix_tokens level postfix shunt_all shunting_yard shunt
binary-Read o t l r s out below hl hr left right =
    let (pending, is_binary, binds, assign, large) = binary_lem o t in
    let it = typed (binary_type o) t in
    let p = precedence (binary_type o) in
    let x = left s out (Below-more (level l) p s hl below) in
    let middle = x.now ++ map node_of x.ps in
    let y = right (it ∷ s) middle (binds, inr hr) in
    let emptied =
      pop_operators-append (yields_to (binary_type o)) x.ps s x.now (
        All-map (Pending (level l)) _ x.ps (λ q h. (h.0, yields_to-Pending o q (level l) hl h))
          x.pending)
      ∙ Below-yields_to o s middle below in
    record {
      ps = y.ps ++ (it ∷ []);
      now = y.now;
      pending =
          All-append (Pending p) y.ps (it ∷ [])
            (All-map (Pending (level r)) (Pending p) y.ps
              (λ q h. Pending-more (level r) p q (omega arith) h) y.pending)
            (pending, tt);
      runs =
          shunt_all-append (infix_tokens l) (it ∷ infix_tokens r) (yard s out)
          ∙ rw (x.runs, is_binary, emptied, y.runs, append-append y.ps (it ∷ []) s);
      nodes =
          ap (◌++◌ y.now) (map-append y.ps (it ∷ []))
          ∙ sym (append-append y.now (map node_of y.ps) (node_of it ∷ []))
          ∙ ap (λ ns. ns ++ (node_of it ∷ [])) (y.nodes ∙ ap (λ ns. ns ++ postfix r) x.nodes)
          ∙ append_four out (postfix l) (postfix r) (node_of it ∷ []);
    }

Below-level : (e : Expr) (s : List Token) → IsGrouped e → Below (level e) s → Below 2 s
unfolding level
Below-level (literal us k t) s g below = below
Below-level (paren us l r e) s g below = below
Below-level (binary o t l r) s g below =
    let (pending, is_binary, binds, assign, large) = binary_lem o t in
    Below-more 2 (precedence (binary_type o)) s (omega arith) below

pub reads :
    (e : Expr) (s : List Token) (out : List Node) → IsGrouped e → Below (level e) s → Read e s out
unfolding level
reads (literal us k t) s out g below = literal-Read us k t s out
reads (paren us l r e) s out g below =
    paren-Read us l r e s out below (λ s' out'. reads e s' out' g)
reads (binary o t l r) s out g below =
    binary-Read o t l r s out below g.0 g.1 (λ s' out'. reads l s' out' g.2)
      (λ s' out'. reads r s' out' g.3)

-- For every expression in which parentheses stand where the precedences need them, `shunting_yard` on
-- its tokens in order, from an empty stack, and then `shunting_yard_stack_cleanup` raise no error and give the
-- postfix form of the expression, behind any nodes already there.
pub shunt_all-infix_tokens :
    (e : Expr) (out : List Node)
    → IsGrouped e
    → then_do
        (shunt_all (infix_tokens e) (yard [] out))
        (λ y. shunting_yard_stack_cleanup y.operators y.expr_cst)
      ≡ parsed (out ++ postfix e)
shunt_all-infix_tokens e out g =
    let x = reads e [] out g tt in
    rw (x.runs, append-nil x.ps, cleanup-Pending (level e) x.ps x.now x.pending, x.nodes)
