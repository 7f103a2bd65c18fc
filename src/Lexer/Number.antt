-- ===== src/Lexer/Number.antt =====
-- src/lexer/number_parser.hpp, and src/lexer/lexer.cpp `handle_numeric`.
-- `std::from_chars` and `std::to_string` on integers are written out; `to_parsable_type<double>` is
-- a parameter, since there are no floating-point numbers here.
use occult.Common.{
  ℕ, zero, suc, ◌+◌, ◌-◌, ◌*◌, ◌/◌, ◌%◌, ◌^◌, Bool, true, false, ◌&&◌, ◌||◌, Option, none, some,
  List, [], ◌∷◌, ◌==◌, ltb, leb, if◌then◌else◌, Bytes, codes, take_while,
}
use occult.Lexer.Token.{TokenType, Token, token, number_literal_tt, float_literal_tt}
use occult.Lexer.Maps.{numeric_set}
use occult.Lexer.State.{Lexer, increment, char_at, rest, collect}

abbrev within : ℕ → ℕ → ℕ → Bool
within lo hi c = leb lo c && leb c hi

unfoldable pub is_octal : ℕ → Bool
is_octal c = within b'0' b'7' c

unfoldable pub is_hex : ℕ → Bool
is_hex c = within b'0' b'9' c || (within b'a' b'f' c || within b'A' b'F' c)

unfoldable pub is_binary : ℕ → Bool
is_binary c = c == b'0' || c == b'1'

-- The digits of `std::from_chars`; 36 for a byte that is none.
unfoldable pub digit_value : ℕ → ℕ
digit_value c =
    if within b'0' b'9' c
    then c - b'0'
    else if within b'a' b'z' c
    then c - 87
    else if within b'A' b'Z' c
    then c - 55
    else 36

-- The number that digits stand for, behind those read already.
unfoldable pub digits_value : ℕ → ℕ → Bytes → ℕ
digits_value base acc [] = acc
digits_value base acc (c ∷ cs) = digits_value base (acc * base + digit_value c) cs

abbrev pub uintptr_mod : ℕ
uintptr_mod = 2 ^ 64

abbrev pub non_empty {ℓ} : {A : Type ℓ} → List A → Bool
non_empty [] = false
non_empty (x ∷ xs) = true

-- `std::from_chars` into a `uintptr_t`: the longest run of digits at the start. `none` stands for
-- `invalid_argument` and `result_out_of_range`.
unfoldable pub from_chars : ℕ → Bytes → Option ℕ
from_chars base number =
    let digits = take_while (λ c. ltb (digit_value c) base) number in
    let value = digits_value base 0 digits in
    if non_empty digits && ltb value uintptr_mod then some value else none

-- The decimal digits of a number, in front of those written already.
unfoldable pub decimal : ℕ → ℕ → Bytes → Bytes
decimal zero n out = out
decimal (suc fuel) n out =
    let more = decimal fuel (n / 10) ((b'0' + n % 10) ∷ out) in
    if ltb n 10 then (b'0' + n) ∷ out else more

-- `std::to_string` of a `uintptr_t`, which has at most 20 digits.
unfoldable pub to_string : ℕ → Bytes
to_string n = decimal 20 n []

-- `to_parsable_type<std::uintptr_t>`; `none` is the exception.
unfoldable pub to_parsable_type : Bytes → ℕ → Option Bytes
to_parsable_type number base = elim (from_chars base number) [
  | none ↦ none
  | some value ↦ some (to_string value)
]

-- The `catch` of each branch.
abbrev pub or_lexeme : Option Bytes → Bytes → Bytes
or_lexeme none lexeme = lexeme
or_lexeme (some s) lexeme = s

-- The hexadecimal and the binary branch, behind their prefix.
unfoldable pub radix_number : ℕ → (ℕ → Bool) → Lexer → Token × Lexer
radix_number base test l =
    let (number, l') = collect test (rest l) l in
    let lexeme =
      if non_empty number
      then or_lexeme (to_parsable_type number base) (codes "0")
      else codes "0" in
    (token l'.line l'.column lexeme number_literal_tt, l')

-- The loop of the octal branch.
unfoldable pub octal_digits : ℕ → Bytes → Lexer → ℕ × Lexer
octal_digits octal_value [] l = (octal_value, l)
octal_digits octal_value (c ∷ cs) l =
    let value = (octal_value * 8 + (c - b'0')) % uintptr_mod in
    let more = octal_digits value cs (increment 0 1 1 l) in
    if is_octal c then more else (octal_value, l)

unfoldable pub octal_number : Lexer → Token × Lexer
octal_number l =
    let (octal_value, l') = octal_digits 0 (rest l) l in
    (token l'.line l'.column (to_string octal_value) number_literal_tt, l')

-- The bytes that the loop of the decimal branch takes.
unfoldable pub is_number_byte : ℕ → Bool
is_number_byte c = numeric_set c || c == b'.' || c == b'e' || c == b'E' || c == b'-' || c == b'+'

unfoldable pub contains : ℕ → Bytes → Bool
contains c [] = false
contains c (d ∷ ds) = d == c || contains c ds

module _ (to_parsable_double : Bytes → Option Bytes) where
  -- What the decimal branch makes of the bytes that it has taken.
  unfoldable pub normal_lexeme : Bytes → Bytes × TokenType
  normal_lexeme number =
      if contains b'.' number || (contains b'e' number || contains b'E' number)
      then (or_lexeme (to_parsable_double number) (codes "0.0"), float_literal_tt)
      else (or_lexeme (to_parsable_type number 10) (codes "0"), number_literal_tt)

  unfoldable pub normal_number : Lexer → Token × Lexer
  normal_number l =
      let (number, l') = collect is_number_byte (rest l) l in
      let (lexeme, type) = normal_lexeme number in (token l'.line l'.column lexeme type, l')

  -- Behind a leading 0, at the byte `c`.
  unfoldable pub zero_number : ℕ → Lexer → Token × Lexer
  zero_number c l =
      if c == b'x' || c == b'X'
      then radix_number 16 is_hex (increment 0 1 1 l)
      else if c == b'b' || c == b'B'
      then radix_number 2 is_binary (increment 0 1 1 l)
      else if c == b'.'
      then normal_number (record l { pos = l.pos - 1; column = l.column - 1 })
      else octal_number l

  unfoldable pub handle_numeric : Lexer → Token × Lexer
  handle_numeric l =
      if char_at l l.pos == b'0'
      then zero_number (char_at l (l.pos + 1)) (increment 0 1 1 l)
      else normal_number l
