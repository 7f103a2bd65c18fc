-- ===== src/Vm/Run.antt =====
-- src/backend/vm/vm.cpp: `vm::run`. The labels `op_fadd`, `op_fdiv`, `op_fsub`, `op_fmul` and `op_fmod` of
-- its switch, which do nothing, and `op_pop` are no constants of `ir_opcode`, so they have no case here.
use occult.Common.{ℕ, zero, suc, ◌+◌, ltb, if◌then◌else◌, Option, none, some, length, get_elem?}
use occult.Common.Int.{ℤ}
use occult.Ir.{
  IrOpcode, op_push, op_store, op_add, op_div, op_mod, op_sub, op_mul, op_jmp, op_jz, op_jnz, op_jl,
  op_jle, op_jg, op_jge, op_cmp, op_ret, op_call, op_syscall, IrOperand, int64, IrInstr,
}
use occult.Vm.Machine.{
  Vm, Result, ok, err, runtime_error, bad_variant_access, ◌>>=◌, to_int, push, store, load, add,
  sub, mul, div, modulo, cmp, jmp, jz, jnz, jl, jle, jg, jge, ret, call,
}

-- `std::get<long int>(instr.operand)`, converted to the `int` that every operation takes.
unfoldable pub operand_int : IrOperand → Result ℤ
operand_int (int64 a) = ok (to_int a)
operand_int _ = err bad_variant_access

-- An operation with an operand.
abbrev pub with_operand : (ℤ → Vm → Result Vm) → IrOperand → Vm → Result Vm
with_operand f operand m = operand_int operand >>= λ a. f a m

-- The switch; the program counter stands behind the instruction already.
unfoldable pub execute : IrOpcode → IrOperand → Vm → Result Vm
execute op_push operand m = with_operand (λ value m. ok (push value m)) operand m
execute IrOpcode.op_load operand m = with_operand load operand m
execute op_store operand m = with_operand store operand m
execute op_add operand m = add m
execute op_div operand m = div m
execute op_mod operand m = modulo m
execute op_sub operand m = sub m
execute op_mul operand m = mul m
execute op_jmp operand m = with_operand jmp operand m
execute op_jz operand m = with_operand jz operand m
execute op_jnz operand m = with_operand jnz operand m
execute op_jl operand m = with_operand jl operand m
execute op_jle operand m = with_operand jle operand m
execute op_jg operand m = with_operand jg operand m
execute op_jge operand m = with_operand jge operand m
execute op_cmp operand m = cmp m
execute op_ret operand m = ret m
execute op_call operand m = with_operand call operand m
execute op_syscall operand m = ok m
execute _ operand m = err (runtime_error "invalid opcode")

abbrev pub advance : Vm → Vm
advance m = record m { program_counter = m.program_counter + 1 }

-- The body of the loop, at the instruction that the program counter names.
abbrev pub execute_at : Option IrInstr → Vm → Result Vm
execute_at none m = ok m
execute_at (some i) m = execute i.op i.operand (advance m)

unfoldable pub step : Vm → Result Vm
step m = execute_at (get_elem? m.bytecode m.program_counter) m

-- The loop, on fuel; `none` when it runs out. A fault ends the run.
unfoldable pub run : ℕ → Vm → Option (Result Vm)
run zero m = none
run (suc fuel) m =
    let more : Option (Result Vm) = elim (step m) [ ok m' ↦ run fuel m' | err e ↦ some (err e) ] in
    if ltb m.program_counter (length m.bytecode) then more else some (ok m)
