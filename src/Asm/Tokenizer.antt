-- ===== src/Asm/Tokenizer.antt =====
-- src/backend/codegen/x86_64_assembler.hpp: the assembler's own lexer. The source from `pos` on is a list, and
-- a byte behind its end is the 0 that a string ends in, which is in no set.
use occult.Common.{
  ℕ, zero, suc, ◌+◌, ◌-◌, ◌*◌, ◌%◌, Bool, ◌||◌, ◌==◌, if◌then◌else◌, Option, none, some, ◌>>=◌,
  List, [], ◌∷◌, Bytes, codes, length, take_while, drop_while,
}
use occult.Lexer.Maps.{whitespace_map, find_char, is_some, numeric_set, alnumeric_set}
use occult.Lexer.Number.{
  is_hex, is_binary, is_octal, non_empty, to_parsable_type, or_lexeme, to_string, uintptr_mod,
}
use occult.Linker.Link.{find, find_name}
use occult.Asm.Token.{InstrToken, AssemblerToken, number_literal_tt, end_of_assembly_tt, unknown_tt}
use occult.Asm.Tables.{assembler_operator_map, assembler_kw_map}
use occult.Asm.Instruction.{Outcome, unfinished, assemble_tokens}

abbrev pub asm_token : Bytes → InstrToken → AssemblerToken
asm_token lexeme tt = record { lexeme = lexeme; tt = tt }

abbrev pub is_whitespace : ℕ → Bool
is_whitespace c = is_some (find_char whitespace_map c)

unfoldable pub handle_whitespace : Bytes → Bytes
handle_whitespace source = drop_while is_whitespace source

-- The hexadecimal and the binary branch, behind their prefix.
unfoldable pub radix_literal : ℕ → (ℕ → Bool) → Bytes → AssemblerToken × Bytes
radix_literal base test source =
    let number = take_while test source in
    let lexeme =
      if non_empty number
      then or_lexeme (to_parsable_type number base) (codes "0")
      else codes "0" in
    (asm_token lexeme number_literal_tt, drop_while test source)

unfoldable pub octal_value : ℕ → Bytes → ℕ
octal_value value [] = value
octal_value value (c ∷ cs) = octal_value ((value * 8 + (c - b'0')) % uintptr_mod) cs

unfoldable pub octal_literal : Bytes → AssemblerToken × Bytes
octal_literal source =
    let value = octal_value 0 (take_while is_octal source) in
    (asm_token (to_string value) number_literal_tt, drop_while is_octal source)

-- What the loop of the decimal branch takes.
abbrev pub in_decimal : ℕ → Bool
in_decimal c = numeric_set c || c == b'-' || c == b'+'

unfoldable pub decimal_literal : Bytes → AssemblerToken × Bytes
decimal_literal source =
    (asm_token (take_while in_decimal source) number_literal_tt, drop_while in_decimal source)

-- Behind a leading 0.
unfoldable pub zero_literal : Bytes → AssemblerToken × Bytes
zero_literal [] = octal_literal []
zero_literal (c ∷ cs) =
    if c == b'x' || c == b'X'
    then radix_literal 16 is_hex cs
    else if c == b'b' || c == b'B'
    then radix_literal 2 is_binary cs
    else if c == b'.'
    then decimal_literal (c ∷ cs)
    else octal_literal (c ∷ cs)

unfoldable pub handle_numeric : Bytes → AssemblerToken × Bytes
handle_numeric [] = decimal_literal []
handle_numeric (c ∷ cs) = if c == b'0' then zero_literal cs else decimal_literal (c ∷ cs)

abbrev pub keyword_token : Bytes → Option InstrToken → AssemblerToken
keyword_token lexeme none = asm_token [] unknown_tt
keyword_token lexeme (some tt) = asm_token lexeme tt

unfoldable pub handle_symbole : Bytes → AssemblerToken × Bytes
handle_symbole source =
    let lexeme = take_while alnumeric_set source in
    (keyword_token lexeme (find_name lexeme assembler_kw_map), drop_while alnumeric_set source)

-- The token at a byte that is an operator, or none.
abbrev pub operator_token : ℕ → Bytes → AssemblerToken × Bytes → AssemblerToken × Bytes
operator_token c cs other = elim (find c assembler_operator_map) [
  | some tt ↦ (asm_token (c ∷ []) tt, cs)
  | none ↦ other
]

-- `get_next_token` behind the whitespace.
unfoldable pub token_at : Bytes → AssemblerToken × Bytes
token_at [] = (asm_token [] unknown_tt, [])
token_at (c ∷ cs) =
    let numeric = handle_numeric (c ∷ cs) in
    let symbole = handle_symbole (c ∷ cs) in
    let unknown : AssemblerToken × Bytes = (asm_token [] unknown_tt, c ∷ cs) in
    if numeric_set c
    then numeric
    else operator_token c cs (if alnumeric_set c then symbole else unknown)

unfoldable pub get_next_token : Bytes → AssemblerToken × Bytes
get_next_token [] = (asm_token (codes "end of assembly") end_of_assembly_tt, [])
get_next_token (c ∷ cs) = token_at (handle_whitespace (c ∷ cs))

-- The first loop of `assemble`; `none` stands for a loop that has not ended when the fuel has.
unfoldable pub scan : ℕ → Bytes → Option (List AssemblerToken)
scan zero source = none
scan (suc fuel) source =
    let next = get_next_token source in
    let tokens = scan fuel next.1 >>= λ ts. some (next.0 ∷ ts) in
    if next.0.tt == end_of_assembly_tt then some (next.0 ∷ []) else tokens

unfoldable pub assemble : ℕ → Bytes → Outcome
assemble fuel source = elim (scan fuel source) [
  | none ↦ unfinished
  | some tokens ↦ assemble_tokens (length tokens) tokens
]
