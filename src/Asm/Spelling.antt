-- ===== src/Asm/Spelling.antt =====
-- src/backend/codegen/x86_64_assembler.hpp: how registers and memory operands are spelled in tokens, and what
-- the parser makes of them.
use occult.Common.{ℕ, ◌-◌, ◌%◌, ◌^◌, Bool, ◌&&◌, ltb, [], ◌∷◌}
use occult.Lexer.Number.{to_string}
use occult.X86.Numbering.{Width}
use occult.X86.Place.{Place, at, offset, indexed, indexed_offset}
use occult.Asm.Token.{
  InstrToken, AssemblerToken, bracket_right_tt, multiplication_tt, minus_tt, addition_tt,
  number_literal_tt,
}
use occult.Asm.Registers.{token_of}
use occult.Asm.Parse.{Tokens}

abbrev pub sign : InstrToken → AssemblerToken
sign tt = record { lexeme = []; tt = tt }

abbrev pub number : ℕ → AssemblerToken
number n = record { lexeme = to_string n; tt = number_literal_tt }

-- A register, by its width, its extension bit and its field.
pub record Spelled : Type 0 where
  pub width : Width
  pub extended : Bool
  pub field : ℕ

abbrev pub register_token : Spelled → AssemblerToken
register_token r = record { lexeme = []; tt = token_of r.width r.extended r.field }

-- Behind the left bracket.
pub data Address : Type 0 where
  base_only : (base : Spelled) → Address
  plus : (base : Spelled) (d : ℕ) → Address
  minus : (base : Spelled) (d : ℕ) → Address
  index_only : (base index : Spelled) → Address
  scaled : (base index : Spelled) (s : ℕ) → Address
  scaled_plus : (base index : Spelled) (s d : ℕ) → Address
  scaled_minus : (base index : Spelled) (s d : ℕ) → Address

abbrev tokens_behind : Spelled → Tokens → Tokens
tokens_behind base ts = register_token base ∷ ts

abbrev pub tokens_scaled : Spelled → Spelled → ℕ → Tokens → Tokens
tokens_scaled base index s ts =
    register_token base
    ∷ sign addition_tt
    ∷ register_token index
    ∷ sign multiplication_tt
    ∷ number (2 ^ s)
    ∷ ts

abbrev pub address_tokens : Address → Tokens → Tokens
address_tokens (base_only base) ts = register_token base ∷ sign bracket_right_tt ∷ ts
address_tokens (plus base d) ts =
    register_token base ∷ sign addition_tt ∷ number d ∷ sign bracket_right_tt ∷ ts
address_tokens (minus base d) ts =
    register_token base ∷ sign minus_tt ∷ number d ∷ sign bracket_right_tt ∷ ts
address_tokens (index_only base index) ts =
    register_token base ∷ sign addition_tt ∷ register_token index ∷ sign bracket_right_tt ∷ ts
address_tokens (scaled base index s) ts = tokens_scaled base index s (sign bracket_right_tt ∷ ts)
address_tokens (scaled_plus base index s d) ts =
    tokens_scaled base index s (sign addition_tt ∷ number d ∷ sign bracket_right_tt ∷ ts)
address_tokens (scaled_minus base index s d) ts =
    tokens_scaled base index s (sign minus_tt ∷ number d ∷ sign bracket_right_tt ∷ ts)

-- The 32-bit pattern of a displacement below 0.
abbrev pub below_zero : ℕ → ℕ
below_zero d = (2 ^ 32 - d) % 2 ^ 32

abbrev pub place_of : Address → Place
place_of (base_only base) = at base.extended base.field
place_of (plus base d) = offset base.extended base.field d
place_of (minus base d) = offset base.extended base.field (below_zero d)
place_of (index_only base index) = indexed base.extended base.field index.extended index.field 0
place_of (scaled base index s) = indexed base.extended base.field index.extended index.field s
place_of (scaled_plus base index s d) =
    indexed_offset base.extended base.field index.extended index.field s d
place_of (scaled_minus base index s d) =
    indexed_offset base.extended base.field index.extended index.field s (below_zero d)

abbrev pub is_scale : ℕ → Bool
is_scale s = ltb s 4

-- Registers that there are, one of the four scales, and a displacement of 31 bits and a sign.
abbrev pub is_address : Address → Bool
is_address (base_only base) = ltb base.field 8
is_address (plus base d) = ltb base.field 8 && ltb d (2 ^ 31)
is_address (minus base d) = ltb base.field 8 && ltb d (2 ^ 31)
is_address (index_only base index) = ltb base.field 8 && ltb index.field 8
is_address (scaled base index s) = ltb base.field 8 && ltb index.field 8 && is_scale s
is_address (scaled_plus base index s d) =
    ltb base.field 8 && ltb index.field 8 && is_scale s && ltb d (2 ^ 31)
is_address (scaled_minus base index s d) =
    ltb base.field 8 && ltb index.field 8 && is_scale s && ltb d (2 ^ 31)
