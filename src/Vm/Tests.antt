-- ===== src/Vm/Tests.antt =====
-- The machine on small programs, and its theorems at concrete states.
use occult.Common.{◌≡◌, refl, [], ◌∷◌, arith, length, some}
use occult.Common.Int.{pos, ◌+ℤ◌, ◌*ℤ◌}
use occult.Ir.{op_call, op_ret, int64, monostate, instr}
use occult.Vm.Machine.{
  Vm, vm, ok, err, runtime_error, ◌>>=◌, to_int, to_size, is_zero, residue, signed32, int_result,
  fits_int, binary_on, call, ret, jmp,
}
use occult.Vm.Run.{run, step, execute, operand_int}
use occult.Vm.Expressions.{
  Expr, literal, bin, plus, times, postfix, opcode, eval, steps, pushed, steps-postfix,
}
use occult.Vm.Safety.{IsValid, Kept, step-IsValid, jmp_lem, ret-call}

-- (2 + 3) * 7
abbrev product : Expr
product = bin times (bin plus (literal (pos 2)) (literal (pos 3))) (literal (pos 7))

abbrev machine : Vm
machine = vm (postfix product) 4

run_product :
    run 6 machine ≡ some (ok (record machine { program_counter = 5; stack = pos 35 ∷ [] }))
unfolding run step execute operand_int postfix opcode to_int residue signed32 int_result fits_int
    binary_on ◌+ℤ◌ ◌*ℤ◌
run_product = refl

steps-postfix_example :
    steps (length (postfix product)) machine
    ≡ (eval product >>= λ v. ok (pushed (length (postfix product)) v machine))
unfolding postfix opcode
steps-postfix_example = steps-postfix product machine [] refl

abbrev calling : Vm
calling = vm (instr op_call (int64 (pos 1)) ∷ instr op_ret monostate ∷ []) 4

abbrev called : Vm
called = record calling { program_counter = 1; call_stack = pos 1 ∷ [] }

calling-IsValid : IsValid calling
calling-IsValid = record { small = omega arith; counter = omega arith; returns = tt }

step-IsValid_example : Kept calling called
unfolding step execute operand_int call to_int residue signed32
step-IsValid_example = step-IsValid calling calling-IsValid (omega arith) refl

jmp_lem_example : jmp (pos 1) calling ≡ err (runtime_error "invalid jmp address")
unfolding is_zero
jmp_lem_example = jmp_lem (pos 1) calling (omega arith) refl

abbrev at_call : Vm
at_call = record calling { program_counter = 1; call_stack = [] }

ret-call_example : (called.program_counter ≡ to_size (pos 1)) × (ret called ≡ ok at_call)
unfolding call to_int residue signed32
ret-call_example = ret-call (pos 1) at_call (omega arith) refl
