-- ===== src/Asm/Tests.antt =====
-- Runs of src/backend/codegen/x86_64_assembler.hpp on single instructions, and the theorems at concrete inputs.
use occult.Common.{none, some, true, false, [], ◌∷◌, Bytes, codes, length, ◌≡◌, refl, arith, All}
use occult.Lexer.Maps.{is_some}
use occult.X86.Registers
use occult.X86.Numbering.{bits16, bits32, bits64}
use occult.Asm.Token.{AssemblerToken, syscall_tt, ret_tt, unknown_tt}
use occult.Asm.Token
use occult.Asm.Parse.{Tokens, from_numerical_string}
use occult.Asm.Tokenizer.{scan, get_next_token, asm_token}
use occult.Asm.Instruction.{read_push, imul_source, assemble_tokens}
use occult.Asm.Spelling.{Spelled, scaled_minus, number, sign}
use occult.Asm.Known.{all_known}
use occult.Asm.Scan.{scan-all_known}
use occult.Asm.Errors.{wide_immediates-none}
use occult.Asm.Terminates.{is_finished, assemble_tokens-fuel}
use occult.Asm.Meaning.{Assembles, mnemonics, step-Assembles}

-- The sign behind a scale is taken for a part of it, so in `[rbx+rcx*4-8]` the displacement is lost.
swallowed_sign :
    get_next_token (codes "4-8]") ≡ (asm_token (codes "4-8") Token.number_literal_tt, codes "]")
unfolding get_next_token occult.Asm.Tokenizer.token_at occult.Asm.Tokenizer.handle_whitespace
    occult.Common.drop_while occult.Lexer.Maps.find_char occult.Lexer.Maps.whitespace_map
    occult.Lexer.Maps.numeric_set occult.Asm.Tokenizer.handle_numeric
    occult.Asm.Tokenizer.decimal_literal occult.Common.take_while
swallowed_sign = refl

four : from_numerical_string 9 (codes "4-8") ≡ some 4
unfolding from_numerical_string occult.Common.take_while occult.Lexer.Maps.numeric_set
    occult.Lexer.Number.digits_value occult.Lexer.Number.digit_value
four = refl

abbrev two_tokens : Tokens
two_tokens = sign syscall_tt ∷ sign unknown_tt ∷ []

assemble_tokens-fuel_example :
    (is_finished (assemble_tokens 2 two_tokens) ≡ true)
    × (assemble_tokens 2 two_tokens ≡ assemble_tokens 9 two_tokens)
assemble_tokens-fuel_example = assemble_tokens-fuel 2 9 two_tokens (omega arith) (omega arith)

scan-all_known_example : is_some (scan 9 (codes "ret; ret")) ≡ all_known (codes "ret; ret")
scan-all_known_example = scan-all_known 9 (codes "ret; ret") (omega arith)

abbrev five : AssemblerToken
five = number 5

wide_immediates-none_example :
    (read_push (five ∷ []) ≡ none) × (imul_source Registers.rcx (five ∷ []) ≡ none)
wide_immediates-none_example = wide_immediates-none Registers.rcx five [] (five ∷ []) refl

abbrev ebx : Spelled
ebx = record { width = bits32; extended = false; field = 3 }

abbrev cx : Spelled
cx = record { width = bits16; extended = false; field = 1 }

abbrev r9 : Spelled
r9 = record { width = bits64; extended = true; field = 1 }

step-Assembles_example : All (Assembles (scaled_minus r9 cx 2 8) ebx two_tokens) mnemonics
step-Assembles_example =
    step-Assembles (scaled_minus r9 cx 2 8) ebx two_tokens refl (omega arith) refl
