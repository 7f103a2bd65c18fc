-- ===== src/Lexer/Total.antt =====
-- `get_next_token` always returns: comments that follow one another consume two bytes each. It moves,
-- or it stands at a byte that no table of the lexer has.
use occult.Common.{
  ℕ, zero, suc, ◌+◌, ◌≤◌, ◌<◌, ◌≡◌, ◌⊎◌, refl, Bool, true, false, Option, arith, ltb, leb, ◌==◌,
  Bytes, inl, inr, if-both, Bool-cases, ◌&&◌, ◌||◌, codes, leb→le, Yields, yields, Yields-map,
}
use occult.Lexer.Token.{
  Token, one, two, three, OperatorType, token, unkown_tt, string_literal_tt, char_literal_tt,
}
use occult.Lexer.Maps.{
  find_char, operator_map_single, delimiter_map, alnumeric_set, numeric_set, is_some,
}
use occult.Lexer.State.{Lexer, char_at, size}
use occult.Lexer.Scan.{handle_comment, is_whitespace, handle_whitespace}
use occult.Lexer.Step.{
  starts_comment, handle_operator, operator_or_symbol, token_at, get_next_token, end_of_file,
  at_triple, at_double, at_scope, at_dots,
}
use occult.Lexer.Analyze.{next}
use occult.Lexer.Moves.{Moves, Moves-weaken}
use occult.Lexer.Advances.{
  Advances, width, operator_token-Advances, handle_comment-Advances, handle_literal-Advances,
  handle_numeric-Advances, handle_symbol-Advances, handle_delimiter-Advances,
  handle_whitespace-Moves, handle_whitespace_with_token-Advances,
}

-- The bytes at which `get_next_token` finds a token or white space.
unfoldable pub starts_literal : ℕ → Bool
starts_literal c = c == 34 || (c == 39 || (numeric_set c || is_some (find_char delimiter_map c)))

unfoldable pub starts_word : ℕ → Bool
starts_word c = c == b':' || (is_some (find_char operator_map_single c) || alnumeric_set c)

unfoldable pub is_known : ℕ → Bool
is_known c = is_whitespace c || (starts_literal c || starts_word c)

abbrev pub unknown_token : Lexer → Token × Lexer
unknown_token l = (token l.line l.column (codes "unknown token") unkown_tt, l)

-- A step that moves within the source, or none.
abbrev pub Stays : Lexer → Token × Lexer → Type 0
Stays l r = Advances 0 l r.1

-- What a call of `token_at` comes to.
abbrev pub Ends : Lexer → Token × Lexer → Type 0
Ends l r =
    Advances 1 l r.1
    ⊎ ((r ≡ unknown_token l)
        × (l.pos < size l
            → (starts_literal (char_at l l.pos) || starts_word (char_at l l.pos)) ≡ false))

module _ (again : Lexer → Option (Token × Lexer)) (l : Lexer)
    (later : (m : Lexer)
      → l.pos + 2 ≤ m.pos
      → m.source ≡ l.source
      → Yields (Stays m) (again m)) where
  handle_operator-Yields :
      (op : OperatorType) → l.pos + width op ≤ size l → Yields (Ends l) (handle_operator again op l)
  unfolding handle_operator
  handle_operator-Yields op h =
      if-both (Yields (Ends l)) (starts_comment l)
        (λ s.
          let moved = handle_comment-Advances l s in
          Yields-map (λ r k. inl (ground (arith, moved)))
            (later (handle_comment l) moved.at_least moved.same_source))
        (λ _. yields (inl (operator_token-Advances op l h)))

  module _ (to_parsable_double : Bytes → Option Bytes) where
    operator_or_symbol-Yields :
        (l.pos < size l → starts_literal (char_at l l.pos) ≡ false)
        → Yields (Ends l) (operator_or_symbol to_parsable_double again l)
    unfolding operator_or_symbol starts_word
    operator_or_symbol-Yields no_literal =
        if-both (Yields (Ends l)) (at_triple l)
          (λ e. handle_operator-Yields three (ground (arith, e)))
          (λ _.
            if-both (Yields (Ends l)) (at_double l)
              (λ e. handle_operator-Yields two (ground (arith, e)))
              (λ _.
                if-both (Yields (Ends l)) (at_scope l) (λ e. yields (inl (ground (arith, e))))
                  (λ _.
                    if-both (Yields (Ends l)) (ltb l.pos (size l) && char_at l l.pos == b':')
                      (λ e. yields (inl (ground (arith, e))))
                      (λ colon.
                        if-both (Yields (Ends l))
                          (ltb l.pos (size l)
                            && is_some (find_char operator_map_single (char_at l l.pos)))
                          (λ e. handle_operator-Yields one (ground (arith, e)))
                          (λ op.
                            if-both (Yields (Ends l))
                              (ltb l.pos (size l) && alnumeric_set (char_at l l.pos))
                              (λ e. yields (
                                inl (
                                  handle_symbol-Advances l (ground (arith, e))
                                    (ground (arith, e)))))
                              (λ word. yields (
                                inr
                                  (refl, λ h. ground (arith, no_literal h, colon, op, word)))))))))

    token_at-Yields : Yields (Ends l) (token_at to_parsable_double again l)
    unfolding token_at starts_literal
    token_at-Yields =
        if-both (Yields (Ends l)) (ltb l.pos (size l) && char_at l l.pos == 34)
          (λ e. yields (inl (handle_literal-Advances 34 string_literal_tt l (ground (arith, e)))))
          (λ no_string.
            if-both (Yields (Ends l)) (ltb l.pos (size l) && char_at l l.pos == 39)
              (λ e. yields (inl (handle_literal-Advances 39 char_literal_tt l (ground (arith, e)))))
              (λ no_char.
                if-both (Yields (Ends l)) (ltb l.pos (size l) && numeric_set (char_at l l.pos))
                  (λ e. yields (
                    inl (
                      handle_numeric-Advances to_parsable_double l (ground (arith, e))
                        (ground (arith, e)))))
                  (λ no_number.
                    if-both (Yields (Ends l))
                      (ltb l.pos (size l) && is_some (find_char delimiter_map (char_at l l.pos)))
                      (λ e.
                        if-both (Yields (Ends l)) (at_dots l)
                          (λ d. yields (inl (ground (arith, e, d))))
                          (λ _. yields (inl (handle_delimiter-Advances l (ground (arith, e))))))
                      (λ no_delimiter.
                        operator_or_symbol-Yields
                          (λ h. ground (arith, no_string, no_char, no_number, no_delimiter))))))

-- What a call of `get_next_token` comes to: the end of the source, a step, or no step at a byte that
-- nothing reads.
pub data Next (l : Lexer) : Token × Lexer → Type 0 where
  at_end : {r : Token × Lexer} → size l ≤ l.pos → r ≡ end_of_file l → Next l r
  moves : {r : Token × Lexer} → l.pos < size l → Advances 1 l r.1 → Next l r
  stands :
      {r : Token × Lexer}
      → l.pos < size l
      → is_known (char_at l l.pos) ≡ false
      → r ≡ unknown_token l
      → Next l r

pub Next-Stays : {l : Lexer} (r : Token × Lexer) → Next l r → Stays l r
Next-Stays {l} r (at_end h e) = ground (arith, e)
Next-Stays {l} r (moves h m) = Moves-weaken 0 _ m (omega arith) (omega arith)
Next-Stays {l} r (stands h k e) = ground (arith, e)

pub handle_whitespace-eq_self :
    (l : Lexer) → is_whitespace (char_at l l.pos) ≡ false → handle_whitespace l ≡ l
unfolding handle_whitespace
handle_whitespace-eq_self l w = rw w refl

handle_whitespace-Advances :
    (l : Lexer) → is_whitespace (char_at l l.pos) ≡ true → Moves 1 1 l (handle_whitespace l)
unfolding handle_whitespace
handle_whitespace-Advances l w = ground arith

after_whitespace :
    (l : Lexer) (r : Token × Lexer) → l.pos < size l → Ends (handle_whitespace l) r → Next l r
unfolding is_known
after_whitespace l r h e = elim (Bool-cases (is_whitespace (char_at l l.pos))) [
  | inl w ↦
      let step = handle_whitespace-Advances l w in
      elim e [
        | inl m ↦ moves h (ground (arith, step, m))
        | inr (q, _) ↦ moves h (ground (arith, step, q))
      ]
  | inr w ↦ elim (rw (handle_whitespace-eq_self l w) at e) [
    | inl m ↦ moves h m
    | inr (q, k) ↦ stands h (rw (w, k h) refl) q
  ]
]

pub get_next_token-Yields :
    (to_parsable_double : Bytes → Option Bytes) (fuel : ℕ) (l : Lexer)
    → size l < l.pos + fuel
    → 0 < fuel
    → Yields (Next l) (get_next_token to_parsable_double fuel l)
unfolding get_next_token
get_next_token-Yields d zero l h k = elim k [ ]
get_next_token-Yields d (suc fuel) l h k =
    if-both (Yields (Next l)) (leb (size l) l.pos) (λ e. yields (at_end (leb→le _ _ e) refl))
      (λ inside.
        let here : l.pos < size l = ground (arith, inside) in
        if-both (Yields (Next l)) (l.use_whitespace && is_whitespace (char_at l l.pos))
          (λ e.
            yields (moves here (handle_whitespace_with_token-Advances l here (ground (arith, e)))))
          (λ _.
            let m = handle_whitespace l in
            let w = handle_whitespace-Moves l in
            Yields-map (λ r e. after_whitespace l r here e)
              (token_at-Yields (get_next_token d fuel) m
                (λ n far same.
                  Yields-map (λ r e. Next-Stays r e)
                    (get_next_token-Yields d fuel n (ground (arith, w, same))
                      (ground (arith, w, same))))
                d)))

-- `get_next_token` returns on every source and from every position, with one unit of fuel for each
-- byte of the source and one more; `next` runs it so.
pub next-Yields :
    (to_parsable_double : Bytes → Option Bytes) (l : Lexer)
    → Yields (Next l) (next to_parsable_double l)
unfolding next
next-Yields d l = get_next_token-Yields d (suc (size l)) l (omega arith) (omega arith)
