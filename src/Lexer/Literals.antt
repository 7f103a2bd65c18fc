-- ===== src/Lexer/Literals.antt =====
-- String and character literals: the lexer reads back what an independent printer quotes.
use mathlib.Core.List.{append_assoc}
use occult.Common.{
  ℕ, suc, ◌+◌, ◌≡◌, ◌≢◌, ◌⊎◌, refl, ◌∙◌, ap, [], ◌∷◌, ◌++◌, arith, Bytes, if◌then◌else◌, ◌||◌, ◌==◌,
  length, length-append, get_or_of_drop, drop, drop-drop, drop-append, sym,
}
use occult.Lexer.Token.{token, TokenType}
use occult.Lexer.Scan.{escape, handle_escape_sequences, handle_literal}
use occult.Lexer.State.{Lexer, rest, increment}

-- A byte inside a literal that `type` closes: line feed, carriage return and tab by their letters, a
-- backslash before the closing byte and before a backslash.
unfoldable pub quote_byte : ℕ → ℕ → Bytes
quote_byte type c =
    if c == 10
    then b'\\' ∷ b'n' ∷ []
    else if c == 13
    then b'\\' ∷ b'r' ∷ []
    else if c == 9
    then b'\\' ∷ b't' ∷ []
    else if c == type || c == b'\\'
    then b'\\' ∷ c ∷ []
    else c ∷ []

unfoldable pub quoted : ℕ → Bytes → Bytes
quoted type [] = []
quoted type (c ∷ cs) = quote_byte type c ++ quoted type cs

-- The two bytes that close a literal.
abbrev pub IsQuote : ℕ → Type 0
IsQuote type = (type ≡ 34) ⊎ (type ≡ 39)

module _ (type : ℕ) (q : IsQuote type) where
  escape_plain :
      (c : ℕ) (cs : Bytes) (l : Lexer)
      → c ≢ type
      → c ≢ b'\\'
      → handle_escape_sequences type (c ∷ cs) l ≡ (
        c ∷ (handle_escape_sequences type cs (increment 0 1 1 l)).0,
        (handle_escape_sequences type cs (increment 0 1 1 l)).1,
      )
  unfolding handle_escape_sequences
  escape_plain c [] l n b = ground arith
  escape_plain c (d ∷ cs) l n b = ground arith

  escape_pair :
      (d : ℕ) (cs : Bytes) (l : Lexer)
      → handle_escape_sequences type (b'\\' ∷ d ∷ cs) l ≡ (
        escape d ∷ (handle_escape_sequences type cs (increment 0 2 2 l)).0,
        (handle_escape_sequences type cs (increment 0 2 2 l)).1,
      )
  unfolding handle_escape_sequences
  escape_pair d cs l =
      let twice : increment 0 1 1 (increment 0 1 1 l) ≡ increment 0 2 2 l = ground arith in
      rw (← twice) (ground arith)

  -- The step over one quoted byte.
  escape-quote_byte :
      (c : ℕ) (cs : Bytes) (l : Lexer) (n : ℕ)
      → length (quote_byte type c) ≡ n
      → handle_escape_sequences type (quote_byte type c ++ cs) l ≡ (
        c ∷ (handle_escape_sequences type cs (increment 0 n n l)).0,
        (handle_escape_sequences type cs (increment 0 n n l)).1,
      )
  unfolding quote_byte escape
  escape-quote_byte c cs l n e = ground (
    arith,
    escape_plain c cs l,
    escape_pair b'n' cs l,
    escape_pair b'r' cs l,
    escape_pair b't' cs l,
    escape_pair c cs l,
  )

  escape-quoted :
      (body more : Bytes) (l : Lexer)
      → handle_escape_sequences type (quoted type body ++ type ∷ more) l
        ≡ (body, increment 0 (length (quoted type body)) (length (quoted type body)) l)
  unfolding quoted
  escape-quoted [] [] l = unfold handle_escape_sequences in ground arith
  escape-quoted [] (m ∷ more) l = unfold handle_escape_sequences in ground arith
  escape-quoted (c ∷ cs) more l =
      let n = length (quote_byte type c) in
      rw append_assoc (
        ground (
          arith,
          escape-quote_byte c (quoted type cs ++ type ∷ more) l n refl,
          escape-quoted cs more (increment 0 n n l),
          length-append (quote_byte type c) (quoted type cs),
        ))

  -- The token of a quoted text is the text, whatever its bytes and whatever follows, and the lexer
  -- stands behind the closing byte.
  pub handle_literal-quoted :
      (kind : TokenType) (body more : Bytes) (l : Lexer)
      → rest l ≡ type ∷ (quoted type body ++ type ∷ more)
      → handle_literal type kind l ≡ (
        token l.line (l.column + length (quoted type body) + 2) body kind,
        increment 0 (length (quoted type body) + 2) (length (quoted type body) + 2) l,
      )
  unfolding handle_literal
  handle_literal-quoted kind body more l at =
      let n = length (quoted type body) in
      let opened = increment 0 1 1 l in
      let tail = quoted type body ++ type ∷ more in
      let (_, behind, _) = get_or_of_drop l.source l.pos 0 type tail at in
      let forth : l.pos + 1 ≡ suc l.pos = omega arith in
      let one_on : rest opened ≡ tail = ap (λ i. drop i l.source) forth ∙ behind in
      let read = rw (← one_on) at (escape-quoted body more opened) in
      let closing : drop (l.pos + 1 + n) l.source ≡ type ∷ more =
        sym (drop-drop (l.pos + 1) n l.source)
        ∙ ap (drop n) one_on
        ∙ drop-append (quoted type body) (type ∷ more) in
      let (found, _, inside) = get_or_of_drop l.source (l.pos + 1 + n) 0 type more closing in
      ground (arith, read, found, inside)
