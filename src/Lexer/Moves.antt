-- ===== src/Lexer/Moves.antt =====
-- How far the handlers of lexer/lexer.cpp move: none changes the source, and each consumes at most
-- the bytes that it is given.
use occult.Common.{
  ℕ, zero, suc, ◌+◌, ◌≤◌, ◌≡◌, refl, ◌∙◌, Bool, [], ◌∷◌, arith, Bytes, length, take_while,
}
use occult.Lexer.State.{Lexer, increment, newline, collect}
use occult.Lexer.Scan.{skip_line, skip_block, comment_byte, handle_escape_sequences, asm_body}

-- From `l` to `l'` at least `lo` and at most `hi` bytes are consumed.
pub record Moves (lo hi : ℕ) (l l' : Lexer) : Type 0 where
  pub same_source : l'.source ≡ l.source
  pub at_least : l.pos + lo ≤ l'.pos
  pub at_most : l'.pos ≤ l.pos + hi

pub Moves-refl : (l : Lexer) → Moves 0 0 l l
Moves-refl l = record { same_source = refl; at_least = omega arith; at_most = omega arith }

pub Moves-trans :
    {a b c d : ℕ} {l m n : Lexer} → Moves a b l m → Moves c d m n → Moves (a + c) (b + d) l n
Moves-trans p q = record {
  same_source = q.same_source ∙ p.same_source;
  at_least = omega arith;
  at_most = omega arith;
}

pub Moves-weaken : {a b : ℕ} (c d : ℕ) {l m : Lexer} → Moves a b l m → c ≤ a → b ≤ d → Moves c d l m
Moves-weaken c d p h k = record {
  same_source = p.same_source;
  at_least = omega arith;
  at_most = omega arith;
}

module _ (test : ℕ → Bool) where
  -- The bytes that `collect` takes are the longest run that passes the test, and it moves past them.
  pub collect-take_while :
      (cs : Bytes) (l : Lexer)
      → collect test cs l ≡ (
        take_while test cs,
        increment 0 (length (take_while test cs)) (length (take_while test cs)) l,
      )
  unfolding collect take_while
  collect-take_while [] l = ground arith
  collect-take_while (c ∷ cs) l = ground (arith, collect-take_while cs (increment 0 1 1 l))

  pub length-take_while : (cs : Bytes) → length (take_while test cs) ≤ length cs
  unfolding take_while
  length-take_while [] = omega arith
  length-take_while (c ∷ cs) = ground (arith, length-take_while cs)

pub skip_line-Moves : (cs : Bytes) (l : Lexer) → Moves 0 (length cs) l (skip_line cs l)
unfolding skip_line
skip_line-Moves [] l = ground arith
skip_line-Moves (c ∷ cs) l = ground (arith, skip_line-Moves cs (increment 0 1 1 l))

pub skip_block-Moves : (cs : Bytes) (l : Lexer) → Moves 0 (length cs) l (skip_block cs l)
unfolding skip_block
skip_block-Moves [] l = ground arith
skip_block-Moves (c ∷ []) l = ground arith
skip_block-Moves (c ∷ d ∷ cs) l = ground (arith, skip_block-Moves (d ∷ cs) (comment_byte c l))

pub handle_escape_sequences-Moves :
    (type : ℕ) (cs : Bytes) (l : Lexer)
    → Moves 0 (length cs + 1) l (handle_escape_sequences type cs l).1
unfolding handle_escape_sequences
handle_escape_sequences-Moves type [] l = ground arith
handle_escape_sequences-Moves type (c ∷ []) l = ground arith
handle_escape_sequences-Moves type (c ∷ d ∷ cs) l = ground (
  arith,
  handle_escape_sequences-Moves type cs (increment 0 1 1 (increment 0 1 1 l)),
  handle_escape_sequences-Moves type (d ∷ cs) (increment 0 1 1 l),
)

pub asm_body-Moves :
    (depth : ℕ) (cs : Bytes) (l : Lexer) → Moves 0 (length cs) l (asm_body depth cs l).1
unfolding asm_body
asm_body-Moves depth [] l = ground arith
asm_body-Moves zero (c ∷ cs) l = ground (
  arith,
  asm_body-Moves 1 cs (increment 0 1 1 l),
  asm_body-Moves 0 cs (newline l),
  asm_body-Moves 0 cs (increment 0 1 1 l),
)
asm_body-Moves (suc d) (c ∷ cs) l = ground (
  arith,
  asm_body-Moves (suc (suc d)) cs (increment 0 1 1 l),
  asm_body-Moves (suc d) cs (newline l),
  asm_body-Moves (suc d) cs (increment 0 1 1 l),
  asm_body-Moves d cs (increment 0 1 1 l),
)
