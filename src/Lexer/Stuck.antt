-- ===== src/Lexer/Stuck.antt =====
-- At a byte that no table has (`#`, `?`, `\`, a backquote, a byte outside ASCII), `get_next_token`
-- returns an unknown token and does not move, so the loops of `analyze` never end.
use occult.Common.{
  ℕ, zero, suc, ◌+◌, ◌<◌, ◌≡◌, refl, Bool, true, false, Option, none, some, List, [], ◌∷◌, arith,
  Bytes, inl, inr, Bool-cases, bytes_eq, ◌&&◌,
}
use occult.Lexer.Token.{Token, TokenType, is_type, end_of_file_tt, unkown_tt, asm_keyword_tt}
use occult.Lexer.Maps.{
  find_char, find_text, operator_map_single, operator_map_double, operator_map_triple, is_some,
}
use occult.Lexer.State.{Lexer, char_at, size, lexer}
use occult.Lexer.Scan.{is_whitespace}
use occult.Lexer.Step.{operator_or_symbol, token_at, get_next_token}
use occult.Lexer.Analyze.{
  next, next_known, asm_tokens, push_token, mark_unary, absorb, analyze_loop, analyze,
}
use occult.Lexer.Total.{
  is_known, starts_literal, starts_word, unknown_token, handle_whitespace-eq_self,
}

first_is : (ℕ → Bool) → Bytes → Bool
first_is p [] = true
first_is p (c ∷ cs) = p c

all_first : (ℕ → Bool) → List (Bytes × TokenType) → Bool
all_first p [] = true
all_first p ((k, t) ∷ m) = first_is p k && all_first p m

-- A text that a table has begins as one of its keys does.
find_text-first :
    (p : ℕ → Bool) (m : List (Bytes × TokenType)) (c : ℕ) (cs : Bytes)
    → all_first p m ≡ true
    → is_some (find_text m (c ∷ cs)) ≡ true
    → p c ≡ true
unfolding find_text bytes_eq first_is all_first
find_text-first p [] c cs a h = cc
find_text-first p (([], t) ∷ m) c cs a h = find_text-first p m c cs a h
find_text-first p ((k ∷ ks, t) ∷ m) c cs a h = ground (arith, find_text-first p m c cs)

abbrev is_operator : ℕ → Bool
is_operator c = is_some (find_char operator_map_single c)

module _ (c : ℕ) (cs : Bytes) where
  triple-first : is_some (find_text operator_map_triple (c ∷ cs)) ≡ true → is_operator c ≡ true
  unfolding operator_map_triple operator_map_single find_char first_is all_first
  triple-first = find_text-first is_operator operator_map_triple c cs refl

  double-first : is_some (find_text operator_map_double (c ∷ cs)) ≡ true → is_operator c ≡ true
  unfolding operator_map_double operator_map_single find_char first_is all_first
  double-first = find_text-first is_operator operator_map_double c cs refl

-- The lexer stands at a byte that it does not know.
pub record IsStuck (l : Lexer) : Type 0 where
  pub inside : l.pos < size l
  pub unknown : is_known (char_at l l.pos) ≡ false

module _ (d : Bytes → Option Bytes) {l : Lexer} (s : IsStuck l) where
  token_at-IsStuck :
      (again : Lexer → Option (Token × Lexer)) → token_at d again l ≡ some (unknown_token l)
  unfolding token_at operator_or_symbol is_known starts_literal starts_word
  token_at-IsStuck again =
      let c = char_at l l.pos in
      let c' = char_at l (l.pos + 1) in
      ground (
        arith,
        s.unknown,
        triple-first c (c' ∷ char_at l (l.pos + 2) ∷ []),
        double-first c (c' ∷ []),
      )

  no_whitespace : is_whitespace (char_at l l.pos) ≡ false
  unfolding is_known
  no_whitespace = ground (arith, s.unknown)

  next-IsStuck : next d l ≡ some (unknown_token l)
  unfolding next get_next_token
  next-IsStuck =
      rw (handle_whitespace-eq_self l no_whitespace, token_at-IsStuck (get_next_token d (size l)))
        (ground (arith, s.inside, no_whitespace))

  next_known-IsStuck : (fuel : ℕ) → next_known d fuel l ≡ none
  unfolding next_known
  next_known-IsStuck zero = refl
  next_known-IsStuck (suc fuel) = rw next-IsStuck (next_known-IsStuck fuel)

  -- `unkown_tt` keeps the loop at the same byte.
  unknown_loop :
      (fuel : ℕ) (prev : TokenType) (out : List Token)
      → analyze_loop d fuel prev out (unknown_token l).0 l ≡ none
  unfolding analyze_loop absorb
  unknown_loop zero prev out = refl
  unknown_loop (suc fuel) prev out = rw next-IsStuck (unknown_loop fuel prev out)

  -- Once the lexer stands at a byte that it does not know, behind any token but the end of the file,
  -- no number of rounds brings the loop of `analyze` to its end.
  pub analyze_loop-IsStuck :
      (fuel : ℕ) (prev : TokenType) (out : List Token) (t : Token)
      → is_type t.type end_of_file_tt ≡ false
      → analyze_loop d fuel prev out t l ≡ none
  unfolding analyze_loop absorb push_token asm_tokens
  analyze_loop-IsStuck zero prev out t e = refl
  analyze_loop-IsStuck (suc fuel) prev out t e =
      rw e (elim (Bool-cases (is_type t.type unkown_tt)) [
        | inl u ↦ rw u (rw next-IsStuck (unknown_loop fuel prev out))
        | inr u ↦ rw u (elim (Bool-cases (is_type (mark_unary prev t).type asm_keyword_tt)) [
          | inl a ↦ rw a (rw (next_known-IsStuck fuel))
          | inr a ↦ rw a (rw next-IsStuck (unknown_loop fuel _ _))
        ])
      ])

-- On a source that begins with such a byte `analyze` does not return, with any fuel.
pub analyze-unknown :
    (d : Bytes → Option Bytes) (c : ℕ) (cs : Bytes) (use_whitespace : Bool) (fuel : ℕ)
    → is_known c ≡ false
    → analyze d fuel (lexer (c ∷ cs) use_whitespace) ≡ none
unfolding analyze
analyze-unknown d c cs w fuel h =
    let s : IsStuck (lexer (c ∷ cs) w) = record { inside = omega arith; unknown = h } in
    rw (next-IsStuck d s) (rw (unknown_loop d s fuel end_of_file_tt []))
