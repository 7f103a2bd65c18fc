-- ===== src/Asm/Reading.antt =====
-- src/backend/codegen/x86_64_assembler.hpp: what the parser makes of a register and of a memory operand.
use occult.Common.{
  ℕ, zero, suc, ◌+◌, ◌-◌, ◌%◌, ◌^◌, ◌<◌, Bool, true, false, ◌&&◌, ◌==◌, ltb, lt→ltb, if◌then◌else◌,
  Option, none, some, [], ◌∷◌, ◌++◌, append-nil, Bytes, take_while-append, ◌≡◌, refl, sym, ap, ◌∙◌,
  arith,
}
use occult.Lexer.Number.{to_string, digits_value}
use occult.Lexer.Decimal.{to_string-IsDigits, to_string-non_empty, decimal-value}
use occult.Lexer.Maps.{numeric_set}
use occult.X86.Numbering.{Width, bits8, bits16, bits32, bits64, grp_of}
use occult.X86.Place.{mem_of}
use occult.Asm.Token.{bracket_right_tt, minus_tt, addition_tt, number_literal_tt}
use occult.X86.Registers.{Grp}
use occult.X86.Memory.{Mem, mem_disp, mem_scaled, mem_scaled_disp}
use occult.Asm.Registers.{token_of, assembler_token_to_gpr-token_of, is_gpr-token_of}
use occult.Asm.Parse.{
  Tokens, from_numerical_string, parse_gpr, parse_disp, parse_scaled, parse_index, parse_sum,
  parse_mem, encode_scale, signed32,
}
use occult.Asm.Spelling.{
  sign, number, Spelled, register_token, Address, base_only, plus, minus, index_only, scaled,
  scaled_plus, scaled_minus, address_tokens, below_zero, place_of, is_scale, is_address,
}

to_string-value : (n : ℕ) → n < 10 ^ 20 → digits_value 10 0 (to_string n) ≡ n
unfolding to_string digits_value
to_string-value n h = decimal-value 20 n [] h

from_numerical_string-to_string :
    (limit n : ℕ) → n < limit → n < 10 ^ 20 → from_numerical_string limit (to_string n) ≡ some n
unfolding from_numerical_string
from_numerical_string-to_string limit n h small =
    let digits =
      sym (ap (λ s. occult.Common.take_while numeric_set s) (append-nil (to_string n)))
      ∙ take_while-append numeric_set (to_string n) [] (to_string-IsDigits n) tt in
    rw (digits, to_string-non_empty n, to_string-value n small, lt→ltb n limit h) refl

pub parse_gpr-register_token :
    (r : Spelled) (ts : Tokens)
    → r.field < 8
    → parse_gpr (register_token r ∷ ts) ≡ some (grp_of bits64 r.extended r.field, ts)
unfolding parse_gpr
parse_gpr-register_token r ts h =
    rw
      (
        assembler_token_to_gpr-token_of r.width r.extended r.field h,
        is_gpr-token_of r.width r.extended r.field h,
      )
      refl

disp_of : (d : ℕ) → ltb d (2 ^ 31) ≡ true → from_numerical_string (2 ^ 31) (to_string d) ≡ some d
disp_of d h = from_numerical_string-to_string (2 ^ 31) d (ground (arith, h)) (ground (arith, h))

scale_of :
    (s : ℕ) → is_scale s ≡ true → from_numerical_string (2 ^ 64) (to_string (2 ^ s)) ≡ some (2 ^ s)
scale_of zero h = from_numerical_string-to_string (2 ^ 64) 1 (omega arith) (omega arith)
scale_of (suc zero) h = from_numerical_string-to_string (2 ^ 64) 2 (omega arith) (omega arith)
scale_of (suc (suc zero)) h = from_numerical_string-to_string (2 ^ 64) 4 (omega arith) (omega arith)
scale_of (suc (suc (suc zero))) h =
    from_numerical_string-to_string (2 ^ 64) 8 (omega arith) (omega arith)
scale_of (suc (suc (suc (suc s)))) h = absurd (ground (arith, h))

encode_scale_of : (s : ℕ) → is_scale s ≡ true → encode_scale (2 ^ s) ≡ s
encode_scale_of zero h = refl
encode_scale_of (suc zero) h = refl
encode_scale_of (suc (suc zero)) h = refl
encode_scale_of (suc (suc (suc zero))) h = refl
encode_scale_of (suc (suc (suc (suc s)))) h = absurd (ground (arith, h))

parse_disp-number :
    (negative : Bool) (make : ℕ → Mem) (d : ℕ) (ts : Tokens)
    → ltb d (2 ^ 31) ≡ true
    → parse_disp negative make (number d ∷ sign bracket_right_tt ∷ ts)
      ≡ some (make (signed32 negative d), ts)
unfolding parse_disp
parse_disp-number negative make d ts h = rw (disp_of d h) refl

token_of-range :
    (width : Width) (e : Bool) (f : ℕ)
    → f < 8
    → (ltb 40 (token_of width e f) && ltb (token_of width e f) 105) ≡ true
token_of-range bits8 e f h = ground (arith, h)
token_of-range bits16 e f h = ground (arith, h)
token_of-range bits32 e f h = ground (arith, h)
token_of-range bits64 e f h = ground (arith, h)

pub register-range :
    (r : Spelled)
    → r.field < 8
    → (ltb 40 (register_token r).tt && ltb (register_token r).tt 105) ≡ true
register-range r h = token_of-range r.width r.extended r.field h

parse_sum-number :
    (base : Grp) (d : ℕ) (ts : Tokens)
    → ltb d (2 ^ 31) ≡ true
    → parse_sum base (number d ∷ sign bracket_right_tt ∷ ts) ≡ some (mem_disp base d, ts)
unfolding parse_sum
parse_sum-number base d ts h = rw (parse_disp-number false (mem_disp base) d ts h) refl

not_number : (r : Spelled) → r.field < 8 → ((register_token r).tt == number_literal_tt) ≡ false
not_number r h = ground (arith, register-range r h)

parse_sum-register_token :
    (base : Grp) (r : Spelled) (ts : Tokens)
    → r.field < 8
    → parse_sum base (register_token r ∷ ts)
      ≡ parse_index base (grp_of bits64 r.extended r.field) ts
unfolding parse_sum
parse_sum-register_token base r ts h =
    rw
      (
        not_number r h,
        is_gpr-token_of r.width r.extended r.field h,
        parse_gpr-register_token r ts h,
      )
      refl

module _ (base index : Grp) (s : ℕ) (ts : Tokens) (valid : is_scale s ≡ true) where
  parse_scaled-only :
      parse_scaled base index (number (2 ^ s) ∷ sign bracket_right_tt ∷ ts)
      ≡ some (mem_scaled base index s, ts)
  unfolding parse_scaled
  parse_scaled-only = rw (scale_of s valid, encode_scale_of s valid) refl

  parse_scaled-plus :
      (d : ℕ)
      → ltb d (2 ^ 31) ≡ true
      → parse_scaled base index
          (number (2 ^ s) ∷ sign addition_tt ∷ number d ∷ sign bracket_right_tt ∷ ts)
        ≡ some (mem_scaled_disp base index s d, ts)
  unfolding parse_scaled
  parse_scaled-plus d h =
      rw
        (
          scale_of s valid,
          encode_scale_of s valid,
          parse_disp-number false (mem_scaled_disp base index s) d ts h,
        )
        refl

  parse_scaled-minus :
      (d : ℕ)
      → ltb d (2 ^ 31) ≡ true
      → parse_scaled base index
          (number (2 ^ s) ∷ sign minus_tt ∷ number d ∷ sign bracket_right_tt ∷ ts)
        ≡ some (mem_scaled_disp base index s (below_zero d), ts)
  unfolding parse_scaled
  parse_scaled-minus d h =
      rw
        (
          scale_of s valid,
          encode_scale_of s valid,
          parse_disp-number true (mem_scaled_disp base index s) d ts h,
        )
        refl

-- What follows a base and `+`.
parse_mem-sum :
    (base : Spelled) (ts : Tokens)
    → base.field < 8
    → parse_mem (register_token base ∷ sign addition_tt ∷ ts)
      ≡ parse_sum (grp_of bits64 base.extended base.field) ts
unfolding parse_mem
parse_mem-sum base ts h = rw (parse_gpr-register_token base (sign addition_tt ∷ ts) h) refl

parse_mem-index :
    (base index : Spelled) (ts : Tokens)
    → base.field < 8
    → index.field < 8
    → parse_mem (register_token base ∷ sign addition_tt ∷ register_token index ∷ ts)
      ≡ parse_index
          (grp_of bits64 base.extended base.field)
          (grp_of bits64 index.extended index.field)
          ts
parse_mem-index base index ts h h' =
    parse_mem-sum base (register_token index ∷ ts) h ∙ parse_sum-register_token _ index ts h'

-- The parser of a memory operand reads the place that is spelled, and leaves the tokens behind the bracket.
pub parse_mem-address_tokens :
    (a : Address) (ts : Tokens)
    → is_address a ≡ true
    → parse_mem (address_tokens a ts) ≡ some (mem_of (place_of a), ts)
unfolding parse_mem parse_index
parse_mem-address_tokens (base_only base) ts h =
    rw (parse_gpr-register_token base (sign bracket_right_tt ∷ ts) (ground (arith, h))) refl
parse_mem-address_tokens (plus base d) ts h =
    parse_mem-sum base _ (ground (arith, h)) ∙ parse_sum-number _ d ts (ground (arith, h))
parse_mem-address_tokens (minus base d) ts h =
    rw
      (
        parse_gpr-register_token base (sign minus_tt ∷ number d ∷ sign bracket_right_tt ∷ ts)
            (ground (arith, h)),
        parse_disp-number true (mem_disp (grp_of bits64 base.extended base.field)) d ts
            (ground (arith, h)),
      )
      refl
parse_mem-address_tokens (index_only base index) ts h =
    parse_mem-index base index _ (ground (arith, h)) (ground (arith, h))
parse_mem-address_tokens (scaled base index s) ts h =
    parse_mem-index base index _ (ground (arith, h)) (ground (arith, h))
    ∙ parse_scaled-only _ _ s ts (ground (arith, h))
parse_mem-address_tokens (scaled_plus base index s d) ts h =
    parse_mem-index base index _ (ground (arith, h)) (ground (arith, h))
    ∙ parse_scaled-plus _ _ s ts (ground (arith, h)) d (ground (arith, h))
parse_mem-address_tokens (scaled_minus base index s d) ts h =
    parse_mem-index base index _ (ground (arith, h)) (ground (arith, h))
    ∙ parse_scaled-minus _ _ s ts (ground (arith, h)) d (ground (arith, h))
