-- ===== src/Lexer/Terminates.antt =====
-- `analyze` returns on every source whose bytes the lexer knows.
use mathlib.Core.Path.{subst}
use occult.Common.{
  ℕ, zero, suc, sym, ◌+◌, ◌≤◌, ◌<◌, ◌≡◌, ◌⊎◌, refl, Bool, true, Option, some, List, [], ◌∷◌, ◌++◌,
  ◌∙◌, arith, Bytes, length, inl, inr, if-both, Yields, yields, Yields-map, Yields-bind,
  Yields-some, All, All-get_or,
}
use occult.Lexer.Token.{Token, TokenType, is_type, end_of_file_tt, unkown_tt, asm_keyword_tt}
use occult.Lexer.State.{Lexer, size, lexer}
use occult.Lexer.Analyze.{
  next, next_known, mark_unary, asm_tokens, push_token, absorb, analyze_loop, analyze,
}
use occult.Lexer.Moves.{Moves-weaken}
use occult.Lexer.Advances.{Advances, Advances-trans, handle_asm_block-Moves}
use occult.Lexer.Total.{is_known, Next, at_end, moves, stands, next-Yields}

-- Every byte of the source is known.
abbrev pub IsKnown : Bytes → Type 0
IsKnown = All (λ c. is_known c ≡ true)

-- A call of `get_next_token` on such a source: the end, or a step.
data Step (l : Lexer) : Token × Lexer → Type 0 where
  ended : {r : Token × Lexer} → r.0.type ≡ end_of_file_tt → r.1 ≡ l → Step l r
  stepped : {r : Token × Lexer} → l.pos < size l → Advances 1 l r.1 → Step l r

Next-Step : {l : Lexer} (r : Token × Lexer) → IsKnown l.source → Next l r → Step l r
Next-Step r k (at_end h e) = ended (ground (arith, e)) (ground (arith, e))
Next-Step r k (moves h m) = stepped h m
Next-Step {l} r k (stands h u e) =
    absurd (ground (arith, u, All-get_or (λ c. is_known c ≡ true) l.source l.pos 0 k h))

Step-Advances : {l : Lexer} (r : Token × Lexer) → Step l r → Advances 0 l r.1
Step-Advances r (ended t e) = ground (arith, e)
Step-Advances r (stepped h m) = ground (arith, m)

IsKnown-same : {s s' : Bytes} → s' ≡ s → IsKnown s → IsKnown s'
IsKnown-same e k = subst IsKnown (sym e) k

-- The stream ends with the end of the file, and the source is as it was.
abbrev pub Complete : Lexer → List Token × Lexer → Type 0
Complete l r =
    (ts : List Token) × (t : Token) × (r.0 ≡ ts ++ t ∷ [])
    × (is_type t.type end_of_file_tt ≡ true)
    × (r.1.source ≡ l.source)

-- The same of `analyze`, which stores the stream in the lexer too.
abbrev pub Analyzed : Bytes → List Token × Lexer → Type 0
Analyzed source r =
    (ts : List Token) × (t : Token) × (r.0 ≡ ts ++ t ∷ [])
    × (is_type t.type end_of_file_tt ≡ true)
    × (r.1.source ≡ source)
    × (r.1.stream ≡ r.0)

module _ (d : Bytes → Option Bytes) where
  next-Step : (l : Lexer) → IsKnown l.source → Yields (Step l) (next d l)
  next-Step l k = Yields-map (λ r n. Next-Step r k n) (next-Yields d l)

  next_known-Yields :
      (fuel : ℕ) (l : Lexer)
      → IsKnown l.source
      → 0 < fuel
      → size l < l.pos + fuel
      → Yields (λ r. Advances 0 l r.1) (next_known d fuel l)
  unfolding next_known
  next_known-Yields zero l k p h = elim p [ ]
  next_known-Yields (suc fuel) l k p h = Yields-bind (next-Step l k) λ r s.
      if-both (Yields (λ q. Advances 0 l q.1)) (is_type r.0.type unkown_tt)
        (λ u. elim s [
          | ended t e ↦ absurd (ground (arith, rw t at u))
          | stepped here m ↦
              Yields-map (λ q n. Moves-weaken 0 _ (Advances-trans m n) (omega arith) (omega arith))
                (next_known-Yields fuel r.1 (IsKnown-same m.same_source k) (omega arith)
                  (ground (arith, m)))
        ])
        (λ _. yields (Step-Advances r s))

  asm_tokens-Yields :
      (fuel : ℕ) (out : List Token) (l : Lexer)
      → IsKnown l.source
      → 0 < fuel
      → size l < l.pos + fuel
      → Yields (λ p. Advances 0 l p.here) (asm_tokens d fuel out l)
  unfolding asm_tokens
  asm_tokens-Yields fuel out l k p h = Yields-bind (next_known-Yields fuel l k p h) λ r m.
      Yields-bind (next_known-Yields fuel r.1 (IsKnown-same m.same_source k) p (ground (arith, m)))
        λ q n. yields (ground (arith, m, n, handle_asm_block-Moves q.1))

  absorb-Yields :
      (fuel : ℕ) (prev : TokenType) (out : List Token) (t : Token) (l : Lexer)
      → IsKnown l.source
      → 0 < fuel
      → size l < l.pos + fuel
      → Yields (λ p. Advances 0 l p.here) (absorb d fuel prev out t l)
  unfolding absorb push_token
  absorb-Yields fuel prev out t l k p h =
      if-both (Yields (λ q. Advances 0 l q.here)) (is_type t.type unkown_tt)
        (λ _. yields (ground arith))
        (λ _.
          if-both (Yields (λ q. Advances 0 l q.here))
            (is_type (mark_unary prev t).type asm_keyword_tt)
            (λ _. asm_tokens-Yields fuel (out ++ mark_unary prev t ∷ []) l k p h)
            (λ _. yields (ground arith)))

  -- Each round of the loop moves, or the next one is the last.
  analyze_loop-Yields :
      (fuel : ℕ) (prev : TokenType) (out : List Token) (t : Token) (l : Lexer)
      → IsKnown l.source
      → 0 < fuel
      → (is_type t.type end_of_file_tt ≡ true) ⊎ ((1 < fuel) × (size l + 1 < l.pos + fuel))
      → Yields (Complete l) (analyze_loop d fuel prev out t l)
  unfolding analyze_loop
  analyze_loop-Yields zero prev out t l k p h = elim p [ ]
  analyze_loop-Yields (suc fuel) prev out t l k p h =
      if-both (Yields (Complete l)) (is_type t.type end_of_file_tt)
        (λ e. yields (out, t, refl, e, refl))
        (λ e.
          let more : (1 < suc fuel) × (size l + 1 < l.pos + suc fuel) = ground (arith, e, h) in
          Yields-bind (absorb-Yields fuel prev out t l k (omega arith) (omega arith)) λ q m.
            let k' = IsKnown-same m.same_source k in
            Yields-bind (next-Step q.here k') λ r s.
              let n = Step-Advances r s in
              Yields-map (λ x c. (c.0, c.1, c.2, c.3, c.4 ∙ n.same_source ∙ m.same_source))
                (analyze_loop-Yields fuel q.previous_token_type q.token_stream r.0 r.1
                  (IsKnown-same n.same_source k') (omega arith)
                  (elim s [
                    | ended t e ↦ inl (rw t refl)
                    | stepped here a ↦ inr (ground (arith, m, a))
                  ])))

  analyze-Yields :
      (source : Bytes) (w : Bool) (fuel : ℕ)
      → IsKnown source
      → length source + 3 ≤ fuel
      → Yields (Analyzed source) (analyze d fuel (lexer source w))
  unfolding analyze
  analyze-Yields source w fuel k h = Yields-bind (next-Step (lexer source w) k) λ first s.
      let n = Step-Advances first s in
      Yields-bind
        (analyze_loop-Yields fuel end_of_file_tt [] first.0 first.1 (IsKnown-same n.same_source k)
          (omega arith) (inr (ground (arith, n))))
        λ r c. yields (c.0, c.1, c.2, c.3, c.4 ∙ n.same_source, refl)

  -- On a source of known bytes `analyze` returns, whatever the order of the bytes: from the start,
  -- one unit of fuel for each byte and three more are enough. The stream that it returns is the one
  -- that it stores in the lexer, its last token is the end of the file, and the source is unchanged.
  pub analyze_total :
      (source : Bytes) (use_whitespace : Bool) (fuel : ℕ)
      → IsKnown source
      → length source + 3 ≤ fuel
      → (r : List Token × Lexer) × (analyze d fuel (lexer source use_whitespace) ≡ some r)
        × Analyzed source r
  analyze_total source w fuel k h = Yields-some (analyze-Yields source w fuel k h)
