-- ===== src/Lexer/Comments.antt =====
-- src/lexer/lexer.cpp, `handle_comment`: what a comment takes, whatever stands in it.
use occult.Common.{
  ℕ, zero, suc, ◌+◌, ◌<◌, ◌≡◌, refl, ap, ◌∙◌, Bool, true, false, if◌then◌else◌, List, [], ◌∷◌, ◌++◌,
  Bytes, length, All, Stops, arith, get_or_of_drop, drop,
}
use occult.Lexer.Token.{tag}
use occult.Lexer.Maps.{find_text, comment_map}
use occult.Lexer.State.{Lexer, rest, increment, is_newline, char_at, size}
use occult.Lexer.Scan.{skip_line, skip_block, ends_comment, comment_body, handle_comment}

unfoldable pub newlines : Bytes → ℕ
newlines [] = 0
newlines (c ∷ cs) = let more = newlines cs in if is_newline c then suc more else more

-- The first byte of a text that goes on with the end of a comment.
abbrev pub first_of : Bytes → ℕ
first_of [] = b'*'
first_of (c ∷ cs) = c

-- The end of a comment does not stand in the text, nor across its end.
abbrev pub IsOpen : Bytes → Type 0
IsOpen [] = Unit
IsOpen (c ∷ cs) = (ends_comment c (first_of cs) ≡ false) × IsOpen cs

skip_line-append :
    (body more : Bytes) (l : Lexer)
    → All (λ c. is_newline c ≡ false) body
    → Stops (λ c. if is_newline c then false else true) more
    → skip_line (body ++ more) l ≡ increment 0 (length body) (length body) l
unfolding skip_line
skip_line-append [] [] l h s = ground arith
skip_line-append [] (c ∷ more) l h s = ground arith
skip_line-append (c ∷ body) more l h s =
    ground (arith, h.0, skip_line-append body more (increment 0 1 1 l) h.1 s)

skip_block-end : (more : Bytes) (l : Lexer) → skip_block (b'*' ∷ b'/' ∷ more) l ≡ increment 0 2 2 l
unfolding skip_block ends_comment find_text comment_map tag occult.Common.bytes_eq
skip_block-end more l = refl

skip_block-append :
    (body more : Bytes) (l : Lexer)
    → IsOpen body
    → skip_block (body ++ (b'*' ∷ b'/' ∷ more)) l
      ≡ increment (newlines body) (length body + 2) (length body + 2) l
unfolding skip_block newlines
skip_block-append [] more l h = ground (arith, skip_block-end more l)
skip_block-append (c ∷ []) more l h = ground (
  arith,
  h.0,
  skip_block-end more (increment 0 1 1 (if is_newline c then increment 1 0 0 l else l)),
)
skip_block-append (c ∷ d ∷ body) more l h = ground (
  arith,
  h.0,
  skip_block-append (d ∷ body) more
      (increment 0 1 1 (if is_newline c then increment 1 0 0 l else l)) h.1,
)

opening :
    (l : Lexer) (kind : ℕ) (tail : Bytes)
    → rest l ≡ b'/' ∷ kind ∷ tail
    → (char_at l l.pos ≡ b'/')
      × (char_at l (l.pos + 1) ≡ kind)
      × (rest (increment 0 2 2 l) ≡ tail)
      × (l.pos + 1 < size l)
opening l kind tail at =
    let forth : l.pos + 1 ≡ suc l.pos = omega arith in
    let (here, behind, _) = get_or_of_drop l.source l.pos 0 b'/' (kind ∷ tail) at in
    let next = ap (λ i. drop i l.source) forth ∙ behind in
    let (there, after, inside) = get_or_of_drop l.source (l.pos + 1) 0 kind tail next in
    let two : l.pos + 2 ≡ suc (l.pos + 1) = omega arith in
    (here, there, ap (λ i. drop i l.source) two ∙ after, inside)

-- A comment between `/*` and `*/`, whatever its text, if that does not hold the end of a comment, is skipped as a
-- whole: the lexer stands behind it, and counts its line feeds and carriage returns as lines and
-- every byte as a column. A comment behind `//` is skipped up to the end of its line or of the source.
pub handle_comment-append :
    (l l' : Lexer) (body line more more' : Bytes)
    → rest l ≡ b'/' ∷ b'*' ∷ (body ++ (b'*' ∷ b'/' ∷ more))
    → IsOpen body
    → rest l' ≡ b'/' ∷ b'/' ∷ (line ++ more')
    → All (λ c. is_newline c ≡ false) line
    → Stops (λ c. if is_newline c then false else true) more'
    → (handle_comment l ≡ increment (newlines body) (length body + 4) (length body + 4) l)
      × (handle_comment l' ≡ increment 0 (length line + 2) (length line + 2) l')
unfolding handle_comment comment_body find_text comment_map tag occult.Common.bytes_eq
handle_comment-append l l' body line more more' at is_open at' no_newline stops =
    let (a, b, c, d) = opening l b'*' (body ++ (b'*' ∷ b'/' ∷ more)) at in
    let (a', b', c', d') = opening l' b'/' (line ++ more') at' in
    let block = skip_block-append body more (increment 0 2 2 l) is_open in
    let to_end = skip_line-append line more' (increment 0 2 2 l') no_newline stops in
    (rw (a, b, c, block) (ground (arith, d)), rw (a', b', c', to_end) (ground (arith, d')))
