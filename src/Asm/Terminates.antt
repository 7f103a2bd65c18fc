-- ===== src/Asm/Terminates.antt =====
-- src/backend/codegen/x86_64_assembler.hpp: every instruction moves on, so the loop ends.
use occult.Common.{
  ℕ, zero, suc, ◌≤◌, Bool, true, false, some, ◌∙◌, ◌==◌, List, [], ◌∷◌, Bytes, length, ◌≡◌, refl,
  arith, Option-cases, inl, inr, All, Bool-cases,
}
use occult.Linker.Link.{find}
use occult.X86.Registers.{Grp}
use occult.X86.Memory.{Mem}
use occult.X86.Emit.Simd.{Simd128}
use occult.Asm.Token.{AssemblerToken, InstrToken}
use occult.Asm.Parse.{Tokens}
use occult.Asm.Operands.{Reader, emitted}
use occult.Asm.Instruction.{
  imul_source, read_imul, read_lea, read_extend, read_movsxd, movs_source, read_movs, read_movq,
  read_push, read_mov, instructions, dispatch, step, assemble_tokens, Outcome, assembled, exception,
  unfinished, append_code,
}
use occult.Asm.Left.{
  two_operands-left, emit_arith-left, emit_single_op-left, emit_shift-left, emit_simd_arith-left,
  left, parse_gpr-left, with_mem-left, with_gpr-left, with_imm-left, with_xmm-left, gpr_comma-left,
  mem_comma-left, xmm_comma-left,
}

imul_source-left : (reg : Grp) (ts : Tokens) → left (imul_source reg ts) ≤ length ts
unfolding left imul_source
imul_source-left reg ts = grind (arith, mem_comma-left, gpr_comma-left, with_imm-left)

read_imul-left : (ts : Tokens) → left (read_imul ts) ≤ length ts
unfolding left read_imul
read_imul-left ts = grind (arith, parse_gpr-left, imul_source-left)

read_lea-left : (ts : Tokens) → left (read_lea ts) ≤ length ts
unfolding left read_lea
read_lea-left ts = grind (arith, gpr_comma-left, with_mem-left)

read_extend-left :
    (fm : Grp → Mem → Bool → Bytes) (fr : Grp → Grp → Bool → Bytes) (ts : Tokens)
    → left (read_extend fm fr ts) ≤ length ts
unfolding left read_extend
read_extend-left fm fr ts = grind (arith, gpr_comma-left, with_mem-left, with_gpr-left)

read_movsxd-left : (ts : Tokens) → left (read_movsxd ts) ≤ length ts
unfolding left read_movsxd
read_movsxd-left ts = grind (arith, gpr_comma-left, with_mem-left, with_gpr-left)

movs_source-left :
    (fm : Mem → Bytes) (tx : Simd128 → Bytes) (ts : Tokens)
    → left (movs_source fm tx ts) ≤ length ts
unfolding left movs_source
movs_source-left fm tx ts = grind (arith, with_mem-left, with_xmm-left)

read_movs-left :
    (tm : Mem → Simd128 → Bytes) (fm : Simd128 → Mem → Bytes) (tx : Simd128 → Simd128 → Bytes)
    (ts : Tokens)
    → left (read_movs tm fm tx ts) ≤ length ts
unfolding left read_movs
read_movs-left tm fm tx ts =
    grind (arith, mem_comma-left, xmm_comma-left, with_xmm-left, movs_source-left)

read_movq-left : (ts : Tokens) → left (read_movq ts) ≤ length ts
unfolding left read_movq
read_movq-left ts = grind (arith, gpr_comma-left, xmm_comma-left, with_xmm-left, with_gpr-left)

read_push-left : (ts : Tokens) → left (read_push ts) ≤ length ts
unfolding left read_push
read_push-left ts = grind (arith, with_mem-left, with_gpr-left, with_imm-left)

read_mov-left : (ts : Tokens) → left (read_mov ts) ≤ length ts
unfolding read_mov
read_mov-left ts = two_operands-left _ _ _ _ _ ts

abbrev Shrinks : Reader → Type 0
Shrinks read = (ts : Tokens) → left (read ts) ≤ length ts

emitted-left : (code : Bytes) (ts : Tokens) → left (emitted code ts) ≤ length ts
unfolding left
emitted-left code ts = omega arith

instructions-left : All (λ c. Shrinks c.1) instructions
unfolding instructions
instructions-left = (
  emitted-left _,
  (
    emitted-left _,
    (
      emit_single_op-left _ _,
      (
        emit_single_op-left _ _,
        (
          emit_single_op-left _ _,
          (
            emit_single_op-left _ _,
            (
              emit_single_op-left _ _,
              (
                emit_shift-left _ _,
                (
                  emit_shift-left _ _,
                  (
                    emit_shift-left _ _,
                    (
                      emit_simd_arith-left _,
                      (
                        emit_simd_arith-left _,
                        (
                          emit_simd_arith-left _,
                          (
                            emit_simd_arith-left _,
                            (
                              emit_simd_arith-left _,
                              (
                                emit_simd_arith-left _,
                                (
                                  emit_simd_arith-left _,
                                  (
                                    emit_simd_arith-left _,
                                    (
                                      read_imul-left,
                                      (
                                        emit_single_op-left _ _,
                                        (
                                          read_lea-left,
                                          (
                                            read_extend-left _ _,
                                            (
                                              read_extend-left _ _,
                                              (
                                                read_movsxd-left,
                                                (
                                                  read_movs-left _ _ _,
                                                  (
                                                    read_movs-left _ _ _,
                                                    (
                                                      read_movq-left,
                                                      (
                                                        emit_single_op-left _ _,
                                                        (
                                                          read_push-left,
                                                          (
                                                            emit_arith-left _ _ _ _ _,
                                                            (
                                                            emit_arith-left _ _ _ _ _,
                                                            (
                                                            emit_arith-left _ _ _ _ _,
                                                            (
                                                            emit_arith-left _ _ _ _ _,
                                                            (
                                                            emit_arith-left _ _ _ _ _,
                                                            (read_mov-left, tt),
                                                            ),
                                                            ),
                                                            ),
                                                            ),
                                                          ),
                                                        ),
                                                      ),
                                                    ),
                                                  ),
                                                ),
                                              ),
                                            ),
                                          ),
                                        ),
                                      ),
                                    ),
                                  ),
                                ),
                              ),
                            ),
                          ),
                        ),
                      ),
                    ),
                  ),
                ),
              ),
            ),
          ),
        ),
      ),
    ),
  ),
)

dispatch-left :
    (k : InstrToken) (m : List (InstrToken × Reader)) (ts : Tokens)
    → All (λ c. Shrinks c.1) m
    → left (dispatch (find k m) ts) ≤ length ts
unfolding find
dispatch-left k [] ts all = emitted-left [] ts
dispatch-left k ((x, read) ∷ m) ts all = elim (Bool-cases (k == x)) [
  | inl e ↦ rw e (all.0 ts)
  | inr e ↦ rw e (dispatch-left k m ts all.1)
]

step-left : (t : AssemblerToken) (ts : Tokens) → left (step t ts) ≤ length ts
unfolding step
step-left t ts = dispatch-left t.tt instructions ts instructions-left

abbrev pub is_finished : Outcome → Bool
is_finished (assembled bytes) = true
is_finished exception = true
is_finished unfinished = false

append_code-is_finished :
    (front : Bytes) (o : Outcome) → is_finished (append_code front o) ≡ is_finished o
append_code-is_finished front (assembled bytes) = refl
append_code-is_finished front exception = refl
append_code-is_finished front unfinished = refl

step-fewer :
    (t : AssemblerToken) (ts rest : Tokens) (bytes : Bytes)
    → step t ts ≡ some (bytes, rest)
    → length rest ≤ length ts
unfolding left
step-fewer t ts rest bytes e = rw e at (step-left t ts)

assemble_tokens-is_finished :
    (fuel : ℕ) (ts : Tokens) → length ts ≤ fuel → is_finished (assemble_tokens fuel ts) ≡ true
unfolding assemble_tokens
assemble_tokens-is_finished fuel [] h = refl
assemble_tokens-is_finished zero (t ∷ ts) h = absurd (omega arith)
assemble_tokens-is_finished (suc fuel) (t ∷ ts) h = elim (Option-cases (step t ts)) [
  | inl e ↦ rw (assemble_tokens, e) refl
  | inr ((bytes, rest), e) ↦
      let fewer = step-fewer t ts rest bytes e in
      rw (assemble_tokens, e)
        (append_code-is_finished bytes (assemble_tokens fuel rest)
          ∙ assemble_tokens-is_finished fuel rest (omega (arith, fewer)))
]

same_fuel :
    (fuel fuel' : ℕ) (ts : Tokens)
    → length ts ≤ fuel
    → length ts ≤ fuel'
    → assemble_tokens fuel ts ≡ assemble_tokens fuel' ts
unfolding assemble_tokens
same_fuel fuel fuel' [] h h' = refl
same_fuel zero fuel' (t ∷ ts) h h' = absurd (omega arith)
same_fuel (suc fuel) zero (t ∷ ts) h h' = absurd (omega arith)
same_fuel (suc fuel) (suc fuel') (t ∷ ts) h h' = elim (Option-cases (step t ts)) [
  | inl e ↦ rw (assemble_tokens, e) refl
  | inr ((bytes, rest), e) ↦
      let fewer = step-fewer t ts rest bytes e in
      rw
        (
          assemble_tokens,
          e,
          same_fuel fuel fuel' rest (omega (arith, fewer)) (omega (arith, fewer)),
        )
        refl
]

-- With at least as much fuel as there are tokens, the loop over the instructions ends by itself,
-- with code or with an exception and never for want of fuel, and with the same result for any such
-- fuel.
pub assemble_tokens-fuel :
    (fuel fuel' : ℕ) (ts : Tokens)
    → length ts ≤ fuel
    → length ts ≤ fuel'
    → (is_finished (assemble_tokens fuel ts) ≡ true)
      × (assemble_tokens fuel ts ≡ assemble_tokens fuel' ts)
assemble_tokens-fuel fuel fuel' ts h h' =
    (assemble_tokens-is_finished fuel ts h, same_fuel fuel fuel' ts h h')
