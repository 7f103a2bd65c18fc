-- ===== src/Parser/Yard.antt =====
-- src/parser/parser.cpp: what the operator stack does with the operators of one expression.
use occult.Common.{
  ℕ, ◌≤◌, ◌<◌, ◌≡◌, refl, sym, ap, ◌∙◌, ◌⊎◌, Bool, true, false, some, List, [], ◌∷◌, ◌++◌, map, All,
  append-append, append-nil, arith,
}
use occult.Lexer.Token
use occult.Lexer.Token.{Token, TokenType, is_type, tag}
use occult.Parser.Cst.{Node}
use occult.Parser.Maps.{precedence, cst_map}
use occult.Parser.Shunting.{
  Parsed, parsed, parsing_error, then_do, Yard, Role, role, binds_paren, pop_operators,
  shunting_yard, shunting_yard_stack_cleanup, shunt_all,
}
use occult.Parser.Grammar.{
  UnaryOp, BinaryOp, Operand, operand_type, unary_type, binary_type, node_of, typed, unary_token,
}

-- What holds of an operator that an expression of a level leaves on the stack.
abbrev pub Pending : ℕ → Token → Type 0
Pending n t =
    ((make : _) × (cst_map t.type ≡ some make))
    × (precedence t.type ≤ n)
    × (is_type Token.left_paren_tt t.type ≡ false)
    × (is_type Token.right_curly_bracket_tt t.type ≡ false)

-- The stack below an expression of a level: nothing, a parenthesis or an operator that binds less.
abbrev pub Below : ℕ → List Token → Type 0
Below n [] = Unit
Below n (t ∷ s) =
    (binds_paren t.type ≡ false)
    × ((is_type Token.left_paren_tt t.type ≡ true) ⊎ (n < precedence t.type))

pub binary_lem :
    (o : BinaryOp) (t : Token)
    → Pending (precedence (binary_type o)) (typed (binary_type o) t)
      × (role (binary_type o) ≡ Role.binary_operator)
      × (binds_paren (binary_type o) ≡ false)
      × (is_type Token.assignment_tt (binary_type o) ≡ false)
      × (2 < precedence (binary_type o))
unfolding binary_type role binds_paren cst_map precedence tag
binary_lem BinaryOp.multiply t =
    (((_, refl), omega arith, refl, refl), refl, refl, refl, omega arith)
binary_lem _ t = (((_, refl), omega arith, refl, refl), refl, refl, refl, omega arith)

pub unary_lem :
    (u : UnaryOp × Token)
    → Pending 2 (unary_token u)
      × (role (unary_type u.0) ≡ Role.unary_operator)
      × (binds_paren (unary_type u.0) ≡ true)
unfolding unary_type role binds_paren cst_map precedence tag
unary_lem (UnaryOp.minus, t) = (((_, refl), omega arith, refl, refl), refl, refl)
unary_lem (_, t) = (((_, refl), omega arith, refl, refl), refl, refl)

pub operand_lem :
    (k : Operand) (t : Token)
    → (role (operand_type k) ≡ Role.operand) × ((make : _) × (cst_map (operand_type k) ≡ some make))
unfolding operand_type role cst_map
operand_lem Operand.number t = (refl, (_, refl))
operand_lem _ t = (refl, (_, refl))

pub node_of_known : (t : Token) (make : _) → cst_map t.type ≡ some make → make t.lexeme ≡ node_of t
unfolding node_of
node_of_known t make e = rw (node_of, e)

-- Operators that pass the test all come off.
pub pop_operators-append :
    (test : TokenType → Bool) (ps s : List Token) (out : List Node)
    → All (λ t. ((make : _) × (cst_map t.type ≡ some make)) × (test t.type ≡ true)) ps
    → pop_operators test (ps ++ s) out ≡ pop_operators test s (out ++ map node_of ps)
unfolding pop_operators
pop_operators-append test [] s out h = ap (pop_operators test s) (sym (append-nil out))
pop_operators-append test (t ∷ ps) s out h =
    let ((make, e), holds) = h.0 in
    rw (holds, e, node_of_known t make e)
      (pop_operators-append test ps s (out ++ (node_of t ∷ [])) h.1
        ∙ ap (pop_operators test s) (append-append out (node_of t ∷ []) (map node_of ps)))

pub cleanup-Pending :
    (n : ℕ) (ps : List Token) (out : List Node)
    → All (Pending n) ps
    → shunting_yard_stack_cleanup ps out ≡ parsed (out ++ map node_of ps)
unfolding shunting_yard_stack_cleanup
cleanup-Pending n [] out h = ap parsed (sym (append-nil out))
cleanup-Pending n (t ∷ ps) out h =
    let ((make, e), small, no_paren, no_curly) = h.0 in
    rw (no_paren, no_curly, e, node_of_known t make e)
      (cleanup-Pending n ps (out ++ (node_of t ∷ [])) h.1
        ∙ ap parsed (append-append out (node_of t ∷ []) (map node_of ps)))

then_do-congr {ℓ κ} :
    {A : Type ℓ} {B : Type κ} (p : Parsed A) {f g : A → Parsed B}
    → ((a : A) → f a ≡ g a)
    → then_do p f ≡ then_do p g
then_do-congr (parsed a) h = h a
then_do-congr (parsing_error s t) h = refl

then_do_assoc {ℓ κ μ} :
    {A : Type ℓ} {B : Type κ} {D : Type μ} (p : Parsed A) (f : A → Parsed B) (g : B → Parsed D)
    → then_do (then_do p f) g ≡ then_do p (λ a. then_do (f a) g)
then_do_assoc (parsed a) f g = refl
then_do_assoc (parsing_error s t) f g = refl

pub shunt_all-append :
    (xs ys : List Token) (y : Yard)
    → shunt_all (xs ++ ys) y ≡ then_do (shunt_all xs y) (shunt_all ys)
unfolding shunt_all
shunt_all-append [] ys y = refl
shunt_all-append (t ∷ xs) ys y =
    then_do-congr (shunting_yard t y) (shunt_all-append xs ys)
    ∙ sym (then_do_assoc (shunting_yard t y) (shunt_all xs) (shunt_all ys))
