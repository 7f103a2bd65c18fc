-- ===== src/Parser/Stack.antt =====
-- src/parser/parser.cpp: the operator stack before and behind one expression, and operands.
use occult.Common.{
  ℕ, ◌≤◌, ◌<◌, ◌≡◌, refl, sym, ap, ◌∙◌, ◌⊎◌, inl, inr, true, false, List, [], ◌∷◌, ◌++◌, map, All,
  All-append, All-map, append-append, arith,
}
use occult.Lexer.Token
use occult.Lexer.Token.{Token, TokenType, is_type, tag}
use occult.Parser.Cst.{Node}
use occult.Parser.Maps.{precedence}
use occult.Parser.Shunting.{
  parsed, Yard, binds_paren, yields_to, pop_operators, shunt, shunting_yard, shunt_all,
  push_operand,
}
use occult.Parser.Grammar.{
  Expr, literal, UnaryOp, BinaryOp, operand_type, binary_type, node_of, last_first, typed,
  unary_token, infix_tokens, postfix, level,
}
use occult.Parser.Yard.{
  Pending, Below, binary_lem, unary_lem, operand_lem, node_of_known, shunt_all-append,
}

abbrev pub yard : List Token → List Node → Yard
yard operators out = record { operators = operators; expr_cst = out }

-- The tokens of an expression leave `ps` on the stack, and the nodes with those of `ps` behind them
-- are the postfix form.
pub record Read (e : Expr) (s : List Token) (out : List Node) : Type 0 where
  pub ps : List Token
  pub now : List Node
  pub pending : All (Pending (level e)) ps
  pub runs : shunt_all (infix_tokens e) (yard s out) ≡ parsed (yard (ps ++ s) now)
  pub nodes : now ++ map node_of ps ≡ out ++ postfix e

-- Unary operators go on the stack.
pub shunt_unary :
    (us : List (UnaryOp × Token)) (s : List Token) (out : List Node)
    → shunt_all (map unary_token us) (yard s out)
      ≡ parsed (yard (last_first (map unary_token us) ++ s) out)
unfolding shunt_all shunting_yard shunt last_first
shunt_unary [] s out = refl
shunt_unary (u ∷ us) s out =
    let (pending, is_unary, binds) = unary_lem u in
    let front = last_first (map unary_token us) in
    rw is_unary (
      shunt_unary us (unary_token u ∷ s) out
      ∙ ap (λ ts. parsed (yard ts out)) (sym (append-append front (unary_token u ∷ []) s)))

pub unary-Pending :
    (us : List (UnaryOp × Token))
    → All (λ t. Pending 2 t × (binds_paren t.type ≡ true)) (last_first (map unary_token us))
unfolding last_first
unary-Pending [] = tt
unary-Pending (u ∷ us) =
    let (pending, is_unary, binds) = unary_lem u in
    All-append (λ t. Pending 2 t × (binds_paren t.type ≡ true)) (last_first (map unary_token us))
      (unary_token u ∷ []) (unary-Pending us) ((pending, binds), tt)

pub yields_to-Below :
    (o : BinaryOp) (t : Token)
    → (is_type Token.left_paren_tt t.type ≡ true) ⊎ (precedence (binary_type o) < precedence t.type)
    → yields_to (binary_type o) t.type ≡ false
unfolding yields_to
yields_to-Below o t (inl h) = rw h
yields_to-Below o t (inr h) =
    let (pending, is_binary, binds, assign, large) = binary_lem o t in rw assign (ground arith)

pub yields_to-Pending :
    (o : BinaryOp) (t : Token) (n : ℕ)
    → n ≤ precedence (binary_type o)
    → Pending n t
    → yields_to (binary_type o) t.type ≡ true
unfolding yields_to
yields_to-Pending o t n le (known, small, no_paren, no_curly) =
    let (pending, is_binary, binds, assign, large) = binary_lem o t in
    rw (no_paren, assign) (ground arith)

-- The loops stop at what is below an expression.
pub Below-yields_to :
    (o : BinaryOp) (s : List Token) (out : List Node)
    → Below (precedence (binary_type o)) s
    → pop_operators (yields_to (binary_type o)) s out ≡ parsed (yard s out)
unfolding pop_operators
Below-yields_to o [] out h = refl
Below-yields_to o (t ∷ s) out h = rw (yields_to-Below o t h.1)

pub Below-binds_paren :
    (n : ℕ) (s : List Token) (out : List Node)
    → Below n s
    → pop_operators binds_paren s out ≡ parsed (yard s out)
unfolding pop_operators
Below-binds_paren n [] out h = refl
Below-binds_paren n (t ∷ s) out h = rw h.0

pub literal-Read :
    (us : List (UnaryOp × Token)) (k : _) (t : Token) (s : List Token) (out : List Node)
    → Read (literal us k t) s out
unfolding infix_tokens level postfix shunt_all shunting_yard shunt push_operand
literal-Read us k t s out =
    let (is_operand, (make, e)) = operand_lem k t in
    let it = typed (operand_type k) t in
    let front = last_first (map unary_token us) in
    record {
      ps = front;
      now = out ++ (node_of it ∷ []);
      pending =
          All-map (λ u. Pending 2 u × (binds_paren u.type ≡ true)) (Pending 2) front (λ u h. h.0)
            (unary-Pending us);
      runs =
          shunt_all-append (map unary_token us) (it ∷ []) (yard s out)
          ∙ rw (shunt_unary us s out, is_operand, push_operand, e, node_of_known it make e);
      nodes = append-append out (node_of it ∷ []) (map node_of front);
    }

pub Below-more : (n k : ℕ) (s : List Token) → n ≤ k → Below k s → Below n s
Below-more n k [] le h = tt
Below-more n k (t ∷ s) le (a, inl p) = (a, inl p)
Below-more n k (t ∷ s) le (a, inr p) = (a, inr (omega arith))

pub Pending-more : (n k : ℕ) (t : Token) → n ≤ k → Pending n t → Pending k t
Pending-more n k t le (known, small, no_paren, no_curly) = (known, omega arith, no_paren, no_curly)
