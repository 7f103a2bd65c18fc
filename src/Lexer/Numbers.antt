-- ===== src/Lexer/Numbers.antt =====
-- src/lexer/lexer.cpp `handle_numeric` on whole literals.
use mathlib.Core.List.{append-nil}
use occult.Common.{
  ℕ, ◌+◌, ◌<◌, ◌≡◌, ◌≢◌, ◌⊎◌, ◌^◌, refl, ◌∙◌, ap, Bool, true, false, Option, [], ◌∷◌, ◌++◌, arith,
  Bytes, All, Stops, take_while, take_while-append, ltb, if◌then◌else◌, ◌||◌, ◌==◌, lt→ltb,
  Bool-cases, inl, inr, All-map, All-append, length, codes, get_or_of_drop,
}
use occult.Lexer.Token.{token, number_literal_tt}
use occult.Lexer.Number.{
  digit_value, digits_value, to_string, to_parsable_type, uintptr_mod, non_empty, contains,
  normal_lexeme, normal_number, is_number_byte, handle_numeric, or_lexeme,
}
use occult.Lexer.Maps.{numeric_set}
use occult.Lexer.State.{Lexer, rest, char_at, increment, collect}
use occult.Lexer.Moves.{collect-take_while}
use occult.Lexer.Decimal.{
  IsDigits, from_chars-IsDigits, to_string-head, to_string-value, to_string-IsDigits,
  to_string-non_empty,
}

-- The bytes that a decimal literal takes and does not read: signs, and digits behind them.
unfoldable pub is_tail : ℕ → Bool
is_tail c = numeric_set c || (c == b'-' || c == b'+')

-- What the digits of an integer literal become.
abbrev pub integer_lexeme : ℕ → Bytes
integer_lexeme value = if ltb value uintptr_mod then to_string value else codes "0"

contains-All :
    (p : ℕ → Bool) (c : ℕ) (xs : Bytes)
    → p c ≡ false
    → All (λ x. p x ≡ true) xs
    → contains c xs ≡ false
unfolding contains
contains-All p c [] h a = refl
contains-All p c (x ∷ xs) h a = ground (arith, contains-All p c xs h a.1, a.0, h)

tail-Stops : (tail : Bytes) → Stops numeric_set tail → Stops (λ c. ltb (digit_value c) 10) tail
unfolding numeric_set digit_value
tail-Stops [] s = tt
tail-Stops (c ∷ cs) s = ground arith

-- `or_lexeme (to_parsable_type …) "0"` on a run of digits.
integer_lexeme_lem :
    (digits tail : Bytes)
    → IsDigits digits
    → non_empty digits ≡ true
    → Stops numeric_set tail
    → or_lexeme (to_parsable_type (digits ++ tail) 10) (codes "0")
      ≡ integer_lexeme (digits_value 10 0 digits)
unfolding to_parsable_type
integer_lexeme_lem digits tail h ne s =
    rw (from_chars-IsDigits digits tail h ne (tail-Stops tail s), to_parsable_type)
      (elim (Bool-cases (ltb (digits_value 10 0 digits) uintptr_mod)) [
        | inl fits ↦ rw fits
        | inr wide ↦ rw wide
      ])

module _ (d : Bytes → Option Bytes) (digits tail more : Bytes) (h : IsDigits digits)
    (ne : non_empty digits ≡ true) (t : All (λ c. is_tail c ≡ true) tail)
    (s : Stops numeric_set tail) where
  digits_and_tail : All (λ c. is_tail c ≡ true) (digits ++ tail)
  unfolding is_tail
  digits_and_tail =
      All-append _ digits tail
        (All-map (λ c. numeric_set c ≡ true) (λ c. is_tail c ≡ true) digits (λ c k. rw k) h) t

  normal_lexeme_lem :
      normal_lexeme d (digits ++ tail)
      ≡ (integer_lexeme (digits_value 10 0 digits), number_literal_tt)
  unfolding normal_lexeme is_tail numeric_set
  normal_lexeme_lem =
      rw
        (
          contains-All is_tail b'.' (digits ++ tail) refl digits_and_tail,
          contains-All is_tail b'e' (digits ++ tail) refl digits_and_tail,
          contains-All is_tail b'E' (digits ++ tail) refl digits_and_tail,
          integer_lexeme_lem digits tail h ne s,
        )
        refl

  -- The loop takes the digits and the tail, and stops at `more`.
  taken :
      Stops is_number_byte more
      → take_while is_number_byte ((digits ++ tail) ++ more) ≡ digits ++ tail
  unfolding is_number_byte is_tail
  taken stop =
      take_while-append is_number_byte (digits ++ tail) more
        (All-map (λ c. is_tail c ≡ true) (λ c. is_number_byte c ≡ true) (digits ++ tail)
          (λ c k. ground (arith, k)) digits_and_tail)
        stop

  -- What `handle_numeric` does at a decimal literal: the digits, then signs and further digits that
  -- it consumes and does not read.
  pub handle_numeric-decimal :
      (l : Lexer)
      → rest l ≡ (digits ++ tail) ++ more
      → Stops is_number_byte more
      → char_at l l.pos ≢ b'0'
      → handle_numeric d l ≡ (
        token l.line
            (l.column + length (digits ++ tail))
            (integer_lexeme (digits_value 10 0 digits))
            number_literal_tt,
        increment 0 (length (digits ++ tail)) (length (digits ++ tail)) l,
      )
  unfolding handle_numeric normal_number
  handle_numeric-decimal l at stop nz =
      let read : collect is_number_byte (rest l) l
          ≡ (digits ++ tail, increment 0 (length (digits ++ tail)) (length (digits ++ tail)) l) =
        collect-take_while is_number_byte (rest l) l
        ∙ ap (λ xs. (xs, increment 0 (length xs) (length xs) l))
            (ap (take_while is_number_byte) at ∙ taken stop) in
      ground (arith, read, normal_lexeme_lem, nz)

-- A decimal literal directly before a sign and further digits swallows them: `12-5` is the literal
-- 12, and neither the operator nor the second operand becomes a token.
pub handle_numeric-swallows_sign :
    (d : Bytes → Option Bytes) (l : Lexer) (a b more : Bytes) (sign : ℕ)
    → IsDigits a
    → non_empty a ≡ true
    → (sign ≡ b'+') ⊎ (sign ≡ b'-')
    → IsDigits b
    → rest l ≡ (a ++ sign ∷ b) ++ more
    → Stops is_number_byte more
    → char_at l l.pos ≢ b'0'
    → handle_numeric d l ≡ (
      token l.line
          (l.column + length (a ++ sign ∷ b))
          (integer_lexeme (digits_value 10 0 a))
          number_literal_tt,
      increment 0 (length (a ++ sign ∷ b)) (length (a ++ sign ∷ b)) l,
    )
unfolding is_tail numeric_set
handle_numeric-swallows_sign d l a b more sign ha ne hs hb =
    handle_numeric-decimal d a (sign ∷ b) more ha ne
      (
        ground (arith, hs),
        All-map (λ c. numeric_set c ≡ true) (λ c. is_tail c ≡ true) b (λ c k. ground (arith, k)) hb,
      )
      (ground (arith, hs)) l

-- The decimal text of a positive `uintptr_t` is read as one literal whose lexeme is that text.
pub handle_numeric-to_string :
    (d : Bytes → Option Bytes) (l : Lexer) (n : ℕ) (more : Bytes)
    → 0 < n
    → n < 2 ^ 64
    → rest l ≡ to_string n ++ more
    → Stops is_number_byte more
    → handle_numeric d l ≡ (
      token l.line (l.column + length (to_string n)) (to_string n) number_literal_tt,
      increment 0 (length (to_string n)) (length (to_string n)) l,
    )
handle_numeric-to_string d l n more pos fits at stop =
    let (c, cs, e, z) = to_string-head n pos fits in
    let first = get_or_of_drop l.source l.pos 0 c (cs ++ more) (at ∙ ap (λ xs. xs ++ more) e) in
    let read = rw append-nil at (
      handle_numeric-decimal d (to_string n) [] more (to_string-IsDigits n) (to_string-non_empty n)
        tt tt l) in
    read at stop (λ q. z (ground (arith, first, q)))
    ∙ rw (to_string-value n fits, lt→ltb n (2 ^ 64) fits) refl
