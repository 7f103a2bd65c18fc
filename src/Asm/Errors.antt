-- ===== src/Asm/Errors.antt =====
-- src/backend/codegen/x86_64_assembler.hpp: instructions that always throw.
use occult.Common.{true, Option, none, some, ◌>>=◌, [], ◌∷◌, ◌≡◌, refl, arith, inl, inr, ◌⊎◌}
use occult.X86.Registers.{Grp}
use occult.Asm.Token.{number_literal_tt, minus_tt, AssemblerToken}
use occult.Linker.Link.{find}
use occult.Asm.Tables.{
  is_gpr, assembler_token_to_gpr64, assembler_token_to_gpr32, assembler_token_to_gpr16,
  assembler_token_to_gpr8,
}
use occult.Asm.Parse.{Tokens, parse_signed_imm}
use occult.Asm.Operands.{starts_imm, with_imm, mem_comma, gpr_comma}
use occult.Asm.Instruction.{imul_source, read_push}

bind-never :
    {A B : Type 0} (o : Option A) (f : A → Option B) → ((a : A) → f a ≡ none) → (o >>= f) ≡ none
bind-never none f h = refl
bind-never (some a) f h = h a

with_imm-none : (ts : Tokens) → with_imm (λ v. none) ts ≡ none
unfolding with_imm
with_imm-none ts = bind-never (parse_signed_imm ts) _ (λ a. refl)

imul_source-none : (reg : Grp) (ts : Tokens) → imul_source reg ts ≡ none
unfolding imul_source
imul_source-none reg [] = refl
imul_source-none reg (t ∷ ts) =
    let mems =
      bind-never (mem_comma (t ∷ ts)) (λ m. with_imm (λ v. none) m.1) (λ m. with_imm-none m.1) in
    let regs =
      bind-never (gpr_comma (t ∷ ts)) (λ r. with_imm (λ v. none) r.1) (λ r. with_imm-none r.1) in
    ground (arith, mems, regs)

starts_imm-cases :
    (t : AssemblerToken) → starts_imm t ≡ true → (t.tt ≡ number_literal_tt) ⊎ (t.tt ≡ minus_tt)
starts_imm-cases t h = ground arith

push-none : (t : AssemblerToken) (ts : Tokens) → starts_imm t ≡ true → read_push (t ∷ ts) ≡ none
unfolding read_push is_gpr find assembler_token_to_gpr64 assembler_token_to_gpr32
    assembler_token_to_gpr16 assembler_token_to_gpr8
push-none t ts h = elim (starts_imm-cases t h) [
  | inl e ↦ rw e (with_imm-none _)
  | inr e ↦ rw e (with_imm-none _)
]

-- `push` before a number or a minus sign, and what follows `imul` with a register and a comma,
-- throw for all tokens: the encoder takes no immediate of 64 bits.
pub wide_immediates-none :
    (reg : Grp) (t : AssemblerToken) (ts operands : Tokens)
    → starts_imm t ≡ true
    → (read_push (t ∷ ts) ≡ none) × (imul_source reg operands ≡ none)
wide_immediates-none reg t ts operands h = (push-none t ts h, imul_source-none reg operands)
