-- ===== src/Lexer/State.antt =====
-- src/lexer/lexer.hpp: the fields of `lexer`, and src/lexer/lexer.cpp `increment`.
-- `pos`, `line` and `column` are `uintptr_t` and stay far below 2 ^ 64 (Lexer.Bounds), so they are
-- plain numbers here. A `char` is its byte, 0 to 255.
use occult.Common.{
  ℕ, ◌+◌, Bool, List, [], ◌∷◌, ◌==◌, ◌||◌, if◌then◌else◌, Bytes, get_or, drop, length,
}
use occult.Lexer.Token.{Token}

pub record Lexer : Type 0 where
  pub source : Bytes
  pub pos : ℕ
  pub line : ℕ
  pub column : ℕ
  pub use_whitespace : Bool
  pub stream : List Token

-- The constructor.
abbrev pub lexer : Bytes → Bool → Lexer
lexer source use_whitespace = record {
  source = source;
  pos = 0;
  line = 1;
  column = 1;
  use_whitespace = use_whitespace;
  stream = [];
}

abbrev pub increment : ℕ → ℕ → ℕ → Lexer → Lexer
increment line pos column l = record l {
  line = l.line + line;
  pos = l.pos + pos;
  column = l.column + column;
}

-- `increment(1, 1, 0); column = 1;`
abbrev pub newline : Lexer → Lexer
newline l = record l { line = l.line + 1; pos = l.pos + 1; column = 1 }

-- `source[i]`: a `std::string` has a 0 byte at index `size()`.
abbrev pub char_at : Lexer → ℕ → ℕ
char_at l i = get_or l.source i 0

-- The bytes from `pos` on. A loop that reads `source[pos]` and moves `pos` by one recurs on them.
abbrev pub rest : Lexer → Bytes
rest l = drop l.pos l.source

abbrev pub size : Lexer → ℕ
size l = length l.source

abbrev pub is_newline : ℕ → Bool
is_newline c = c == 10 || c == 13

-- `while (test(source[pos])) { number += source[pos]; increment(0, 1, 1); }`
unfoldable pub collect : (ℕ → Bool) → Bytes → Lexer → Bytes × Lexer
collect test [] l = ([], l)
collect test (c ∷ cs) l =
    let more = collect test cs (increment 0 1 1 l) in
    if test c then (c ∷ more.0, more.1) else ([], l)
