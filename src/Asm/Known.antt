-- ===== src/Asm/Known.antt =====
-- src/backend/codegen/x86_64_assembler.hpp: the bytes that the assembler's lexer takes, token by token.
use occult.Common.{
  ℕ, ◌≤◌, Bool, true, false, not, ◌&&◌, ◌||◌, ◌==◌, bytes_eq, some, List, [], ◌∷◌, Bytes, length,
  take_while, drop_while, ◌≡◌, refl, arith, Bool-cases, Option-cases, sym, ◌∙◌, inl, inr,
}
use occult.Lexer.Maps.{is_some, numeric_set, alnumeric_set}
use occult.Lexer.Number.{is_hex, is_binary, is_octal}
use occult.Linker.Link.{find, find_name}
use occult.Asm.Token.{InstrToken, AssemblerToken, end_of_assembly_tt}
use occult.Asm.Tables.{assembler_operator_map, assembler_kw_map}
use occult.Asm.Tokenizer.{
  is_whitespace, radix_literal, octal_literal, decimal_literal, in_decimal, zero_literal,
  handle_numeric, handle_symbole, operator_token, token_at,
}

abbrev pub readable : ℕ → Bool
readable c = numeric_set c || alnumeric_set c || is_some (find c assembler_operator_map)

-- The bytes that the tokenizer does not stop at.
abbrev pub known : ℕ → Bool
known c = is_whitespace c || readable c

unfoldable pub all_known : Bytes → Bool
all_known [] = true
all_known (c ∷ cs) = let rest = all_known cs in known c && rest

pub drop_while-all_known :
    (p : ℕ → Bool) (cs : Bytes)
    → ((c : ℕ) → p c ≡ true → known c ≡ true)
    → (all_known (drop_while p cs) ≡ all_known cs) × (length (drop_while p cs) ≤ length cs)
unfolding all_known drop_while
drop_while-all_known p [] h = (refl, omega arith)
drop_while-all_known p (c ∷ cs) h = elim (Bool-cases (p c)) [
  | inl e ↦
      let k = h c e in let ih = drop_while-all_known p cs h in ground (arith, e, k, ih.0, ih.1)
  | inr e ↦ rw e (refl, omega arith)
]

-- What a token is, read at the head of a source.
abbrev pub Read : Bytes → AssemblerToken × Bytes → Type 0
Read source next =
    ((next.0.tt == end_of_assembly_tt) ≡ false)
    × (all_known next.1 ≡ all_known source)
    × (length next.1 ≤ length source)

is_hex-known : (c : ℕ) → is_hex c ≡ true → known c ≡ true
unfolding is_hex alnumeric_set numeric_set
is_hex-known c h = ground arith

is_binary-known : (c : ℕ) → is_binary c ≡ true → known c ≡ true
unfolding is_binary numeric_set
is_binary-known c h = ground arith

is_octal-known : (c : ℕ) → is_octal c ≡ true → known c ≡ true
unfolding is_octal numeric_set
is_octal-known c h = ground arith

in_decimal-known : (c : ℕ) → in_decimal c ≡ true → known c ≡ true
unfolding numeric_set find assembler_operator_map
in_decimal-known c h = ground arith

alnumeric-known : (c : ℕ) → alnumeric_set c ≡ true → known c ≡ true
alnumeric-known c h = ground arith

prefix-known : (c : ℕ) → (c == b'x' || c == b'X' || c == b'b' || c == b'B') ≡ true → known c ≡ true
unfolding alnumeric_set
prefix-known c h = ground arith

zero_literal-Read : (cs : Bytes) → Read cs (zero_literal cs)
unfolding zero_literal radix_literal octal_literal decimal_literal all_known drop_while
zero_literal-Read [] = (refl, refl, omega arith)
zero_literal-Read (c ∷ cs) =
    let hex = drop_while-all_known is_hex cs is_hex-known in
    let binary = drop_while-all_known is_binary cs is_binary-known in
    let octal = drop_while-all_known is_octal (c ∷ cs) is_octal-known in
    let decimal = drop_while-all_known in_decimal (c ∷ cs) in_decimal-known in
    elim (Bool-cases (c == b'x' || c == b'X')) [
      | inl e ↦ rw (e, prefix-known c (ground (arith, e))) (refl, hex.0, omega (arith, hex.1))
      | inr e ↦ rw e (elim (Bool-cases (c == b'b' || c == b'B')) [
        | inl e' ↦
            rw (e', prefix-known c (ground (arith, e'))) (refl, binary.0, omega (arith, binary.1))
        | inr e' ↦ rw e' (elim (Bool-cases (c == b'.')) [
          | inl d ↦ rw d (refl, decimal.0, decimal.1)
          | inr d ↦ rw d (refl, octal.0, octal.1)
        ])
      ])
    ]

-- Behind a byte that the loop takes, the rest is read from there.
taken :
    (p : ℕ → Bool) (c : ℕ) (cs : Bytes)
    → p c ≡ true
    → ((d : ℕ) → p d ≡ true → known d ≡ true)
    → (all_known (drop_while p (c ∷ cs)) ≡ all_known cs)
      × (length (drop_while p (c ∷ cs)) ≤ length cs)
unfolding drop_while
taken p c cs e h = rw e (drop_while-all_known p cs h)

handle_numeric-Read :
    (c : ℕ) (cs : Bytes) → numeric_set c ≡ true → Read cs (handle_numeric (c ∷ cs))
unfolding handle_numeric decimal_literal
handle_numeric-Read c cs h = elim (Bool-cases (c == b'0')) [
  | inl e ↦ rw e (zero_literal-Read cs)
  | inr e ↦
      rw e (let rest = taken in_decimal c cs (rw h refl) in_decimal-known in (refl, rest.0, rest.1))
]

unfoldable all : {A : Type 0} → (A → Bool) → List A → Bool
all p [] = true
all p (x ∷ xs) = let rest = all p xs in p x && rest

and-split : (a b : Bool) → (a && b) ≡ true → (a ≡ true) × (b ≡ true)
and-split a b h = ground arith

find_name-values :
    (p : ℕ → Bool) (name : Bytes) (m : List (Bytes × ℕ))
    → all (λ e. p e.1) m ≡ true
    → (v : ℕ) → find_name name m ≡ some v
    → p v ≡ true
unfolding find_name all
find_name-values p name [] h v e = ground arith
find_name-values p name ((x, a) ∷ m) h v e =
    let first = and-split (p a) (all (λ e. p e.1) m) h in
    elim (Bool-cases (bytes_eq name x)) [
      | inl b ↦ ground (arith, first, b)
      | inr b ↦ find_name-values p name m first.1 v (sym (rw b refl) ∙ e)
    ]

abbrev no_end : InstrToken → Bool
no_end tt = not (tt == end_of_assembly_tt)

keywords-no_end : all (λ e. no_end e.1) assembler_kw_map ≡ true
unfolding assembler_kw_map all
keywords-no_end = refl

handle_symbole-Read :
    (c : ℕ) (cs : Bytes) → alnumeric_set c ≡ true → Read cs (handle_symbole (c ∷ cs))
unfolding handle_symbole
handle_symbole-Read c cs h =
    let rest = taken alnumeric_set c cs h alnumeric-known in
    let lexeme = take_while alnumeric_set (c ∷ cs) in
    elim (Option-cases (find_name lexeme assembler_kw_map)) [
      | inl e ↦ rw e (refl, rest.0, rest.1)
      | inr (v, e) ↦
          let k = find_name-values no_end lexeme assembler_kw_map keywords-no_end v e in
          rw e (ground (arith, k), rest.0, rest.1)
    ]

find-values :
    (p : ℕ → Bool) (k : ℕ) (m : List (ℕ × ℕ))
    → all (λ e. p e.1) m ≡ true
    → (v : ℕ) → find k m ≡ some v
    → p v ≡ true
unfolding find all
find-values p k [] h v e = ground arith
find-values p k ((x, a) ∷ m) h v e =
    let first = and-split (p a) (all (λ e. p e.1) m) h in
    elim (Bool-cases (k == x)) [
      | inl b ↦ ground (arith, first, b)
      | inr b ↦ find-values p k m first.1 v (sym (rw b refl) ∙ e)
    ]

operators-no_end : all (λ e. no_end e.1) assembler_operator_map ≡ true
unfolding assembler_operator_map all
operators-no_end = refl

-- The byte at the head is taken if it is readable; else nothing is.
pub token_at-Read : (c : ℕ) (cs : Bytes) → readable c ≡ true → Read cs (token_at (c ∷ cs))
unfolding token_at
token_at-Read c cs h = elim (Bool-cases (numeric_set c)) [
  | inl e ↦ rw e (handle_numeric-Read c cs e)
  | inr e ↦ rw e (elim (Option-cases (find c assembler_operator_map)) [
    | inr (v, e') ↦
        let k = find-values no_end c assembler_operator_map operators-no_end v e' in
        rw (e', operator_token) (ground (arith, k), refl, omega arith)
    | inl e' ↦
        rw (e', operator_token)
          (elim (Bool-cases (alnumeric_set c)) [
            | inl a ↦ rw a (handle_symbole-Read c cs a)
            | inr a ↦ absurd (ground (arith, e, e', a, h))
          ])
  ])
]

pub token_at-goes :
    (c : ℕ) (cs : Bytes)
    → readable c ≡ false
    → ((token_at (c ∷ cs)).0.tt == end_of_assembly_tt) ≡ false
unfolding token_at
token_at-goes c cs h = ground arith

pub token_at-stuck : (c : ℕ) (cs : Bytes) → readable c ≡ false → (token_at (c ∷ cs)).1 ≡ c ∷ cs
unfolding token_at
token_at-stuck c cs h = ground arith
