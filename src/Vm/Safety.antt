-- ===== src/Vm/Safety.antt =====
-- The addresses of the machine: where jumps may lead, what a call and its return do, and what every
-- round of the loop keeps.
use occult.Common.{
  ℕ, zero, suc, ◌≤◌, ◌<◌, ◌^◌, ◌≡◌, refl, Bool, true, false, ◌&&◌, ltb, if◌then◌else◌, List, [],
  ◌∷◌, length, length-set, arith, Option, none, some, get_elem?, All, String, if-both,
}
use occult.Common.Int.{ℤ, pos, negsuc, ltb_ℤ}
use occult.Ir.{
  IrOpcode, op_push, op_store, op_load, op_add, op_div, op_mod, op_sub, op_mul, op_jmp, op_jz,
  op_jnz, op_jl, op_jle, op_jg, op_jge, op_cmp, op_ret, op_call, op_syscall, IrOperand, int64,
  IrInstr,
}
use occult.Vm.Machine.{
  Vm, Result, ok, err, runtime_error, ◌>>=◌, residue, to_size, to_int, signed32, is_zero, jmp,
  jmp_refused, call_refused, branch_on, jump_zero, ret, ret_on, call, push, binary_on, store_on,
  store, load, jz, jnz, jl, jle, jg, jge, jump_sign, out_of_memory,
}
use occult.Vm.Run.{operand_int, with_operand, execute, execute_at, advance, step}

-- `jmp` accepts the address 0 alone: its guard refuses every other one, forward or backward, also
-- where the address lies in the program.
pub jmp_lem :
    (addr : ℤ) (m : Vm)
    → length m.bytecode < 2 ^ 31
    → ltb_ℤ (negsuc (2 ^ 31)) addr ≡ true
    → jmp addr m ≡ (
        if is_zero addr && ltb 0 (length m.bytecode)
        then ok (record m { program_counter = 0 })
        else err (runtime_error "invalid jmp address"))
unfolding jmp residue is_zero
jmp_lem (pos zero) m h r = ground arith
jmp_lem (pos (suc n)) m h r = ground arith
jmp_lem (negsuc n) m h r = ground arith

-- A call that is accepted goes to its address, and the return from there goes behind the call and
-- restores the call stack.
pub ret-call :
    (addr : ℤ) (m : Vm) {m' : Vm}
    → m.program_counter < 2 ^ 31
    → call addr m ≡ ok m'
    → (m'.program_counter ≡ to_size addr) × (ret m' ≡ ok m)
unfolding call ret_on residue signed32 to_int
ret-call addr m h c = ground arith

-- What holds of every state that the program reaches.
pub record IsValid (m : Vm) : Type 0 where
  pub small : length m.bytecode < 2 ^ 31
  pub counter : m.program_counter ≤ length m.bytecode
  pub returns : All (λ a. to_size a ≤ length m.bytecode) m.call_stack

-- A round keeps the program and the size of the memory, and leads to a valid state.
pub record Kept (m m' : Vm) : Type 0 where
  pub valid : IsValid m'
  pub same_bytecode : m'.bytecode ≡ m.bytecode
  pub same_size : length m'.memory ≡ length m.memory

abbrev pub OkImplies : (Vm → Type 0) → Result Vm → Type 0
OkImplies P (ok m) = P m
OkImplies P (err e) = Unit

OkImplies-bind :
    {A : Type 0} (P : Vm → Type 0) (r : Result A) (f : A → Result Vm)
    → ((a : A) → OkImplies P (f a))
    → OkImplies P (r >>= f)
OkImplies-bind P (ok a) f k = k a
OkImplies-bind P (err e) f k = tt

-- An operation that leaves program, counter and calls alone keeps the state valid.
still :
    (m : Vm) (s memory : List ℤ)
    → IsValid m
    → length memory ≡ length m.memory
    → Kept m (record m { stack = s; memory = memory })
still m s memory v e = record {
  valid = record { small = v.small; counter = v.counter; returns = v.returns };
  same_bytecode = refl;
  same_size = e;
}

-- So does a jump into the program.
jump :
    (m : Vm) (s : List ℤ) (n : ℕ)
    → IsValid m
    → n ≤ length m.bytecode
    → Kept m (record m { stack = s; program_counter = n })
jump m s n v e = record {
  valid = record { small = v.small; counter = e; returns = v.returns };
  same_bytecode = refl;
  same_size = refl;
}

jmp_refused-lem : (a : ℤ) (m : Vm) → jmp_refused a m ≡ false → to_size a ≤ length m.bytecode
jmp_refused-lem a m e = ground (arith, e)

call_refused-lem :
    (a : ℤ) (m : Vm)
    → length m.bytecode < 2 ^ 31
    → call_refused a m ≡ false
    → to_size a ≤ length m.bytecode
unfolding residue to_int signed32
call_refused-lem (pos n) m h e = ground (arith, e)
call_refused-lem (negsuc n) m h e = ground (arith, e)

module _ (m : Vm) (v : IsValid m) where
  with_operand-Kept :
      (f : ℤ → Vm → Result Vm) (operand : IrOperand)
      → ((a : ℤ) → OkImplies (Kept m) (f a m))
      → OkImplies (Kept m) (with_operand f operand m)
  unfolding operand_int
  with_operand-Kept f (int64 a) k = k (to_int a)
  with_operand-Kept f _ k = tt

  binary-Kept :
      (s : String) (f : ℤ → ℤ → Result ℤ) (stack : List ℤ)
      → OkImplies (Kept m) (binary_on s f stack m)
  unfolding binary_on
  binary-Kept s f [] = tt
  binary-Kept s f (a ∷ []) = tt
  binary-Kept s f (a ∷ b ∷ rest) =
      OkImplies-bind (Kept m) (f b a) _ (λ value. still m (value ∷ rest) m.memory v refl)

  store-Kept : (a : ℤ) (stack : List ℤ) → OkImplies (Kept m) (store_on a stack m)
  unfolding store_on
  store-Kept a [] = tt
  store-Kept a (value ∷ rest) =
      if-both (OkImplies (Kept m)) (out_of_memory a m) (λ _. tt)
        (λ _. still m rest _ v (length-set m.memory (to_size a) value))

  load-Kept : (a : ℤ) → OkImplies (Kept m) (load a m)
  unfolding load
  load-Kept a =
      if-both (OkImplies (Kept m)) (out_of_memory a m) (λ _. tt) (λ _. still m _ m.memory v refl)

  jmp-Kept : (a : ℤ) → OkImplies (Kept m) (jmp a m)
  unfolding jmp
  jmp-Kept a =
      if-both (OkImplies (Kept m)) (jmp_refused a m) (λ _. tt)
        (λ e. jump m m.stack (to_size a) v (jmp_refused-lem a m e))

  branch-Kept :
      (s t : String) (test : ℤ → Bool) (refused : ℤ → Vm → Bool) (a : ℤ) (stack : List ℤ)
      → ((rest : List ℤ)
          → refused a (record m { stack = rest }) ≡ false
          → to_size a ≤ length m.bytecode)
      → OkImplies (Kept m) (branch_on s t test refused a stack m)
  unfolding branch_on
  branch-Kept s t test refused a [] k = tt
  branch-Kept s t test refused a (value ∷ rest) k =
      if-both (OkImplies (Kept m)) (test value)
        (λ _.
          if-both (OkImplies (Kept m)) (refused a (record m { stack = rest })) (λ _. tt)
            (λ e. jump m rest (to_size a) v (k rest e)))
        (λ _. still m rest m.memory v refl)

  zero-Kept : (test : ℤ → Bool) (a : ℤ) → OkImplies (Kept m) (jump_zero test a m)
  zero-Kept test a =
      branch-Kept _ _ test jmp_refused a m.stack
        (λ rest e. jmp_refused-lem a (record m { stack = rest }) e)

  sign-Kept : (test : ℤ → Bool) (a : ℤ) → OkImplies (Kept m) (jump_sign test a m)
  sign-Kept test a =
      branch-Kept _ _ test call_refused a m.stack
        (λ rest e. call_refused-lem a (record m { stack = rest }) v.small e)

  ret-Kept : (calls : List ℤ) → calls ≡ m.call_stack → OkImplies (Kept m) (ret_on calls m)
  unfolding ret_on
  ret-Kept [] e = tt
  ret-Kept (a ∷ rest) e =
      let h = rw (← e) at v.returns in
      record {
        valid = record { small = v.small; counter = h.0; returns = h.1 };
        same_bytecode = refl;
        same_size = refl;
      }

  call-Kept : (a : ℤ) → OkImplies (Kept m) (call a m)
  unfolding call
  call-Kept a =
      if-both (OkImplies (Kept m)) (call_refused a m) (λ _. tt)
        (λ e. record {
          valid = record {
            small = v.small;
            counter = call_refused-lem a m v.small e;
            returns = (return_address, v.returns);
          };
          same_bytecode = refl;
          same_size = refl;
        })
    where
      return_address : to_size (to_int (pos m.program_counter)) ≤ length m.bytecode
      return_address = unfold residue to_int signed32 in ground (arith, v.small, v.counter)

  execute-Kept : (op : IrOpcode) (operand : IrOperand) → OkImplies (Kept m) (execute op operand m)
  unfolding execute
  execute-Kept op_push o =
      with_operand-Kept (λ a m. ok (push a m)) o (λ a. still m (a ∷ m.stack) m.memory v refl)
  execute-Kept op_load o = with_operand-Kept load o load-Kept
  execute-Kept op_store o = with_operand-Kept store o (λ a. store-Kept a m.stack)
  execute-Kept op_add o = binary-Kept _ _ m.stack
  execute-Kept op_div o = binary-Kept _ _ m.stack
  execute-Kept op_mod o = binary-Kept _ _ m.stack
  execute-Kept op_sub o = binary-Kept _ _ m.stack
  execute-Kept op_mul o = binary-Kept _ _ m.stack
  execute-Kept op_cmp o = binary-Kept _ _ m.stack
  execute-Kept op_jmp o = with_operand-Kept jmp o jmp-Kept
  execute-Kept op_jz o = with_operand-Kept jz o (zero-Kept _)
  execute-Kept op_jnz o = with_operand-Kept jnz o (zero-Kept _)
  execute-Kept op_jl o = with_operand-Kept jl o (sign-Kept _)
  execute-Kept op_jle o = with_operand-Kept jle o (sign-Kept _)
  execute-Kept op_jg o = with_operand-Kept jg o (sign-Kept _)
  execute-Kept op_jge o = with_operand-Kept jge o (sign-Kept _)
  execute-Kept op_ret o = ret-Kept m.call_stack refl
  execute-Kept op_call o = with_operand-Kept call o call-Kept
  execute-Kept op_syscall o = still m m.stack m.memory v refl
  execute-Kept _ o = tt

advance-IsValid : (m : Vm) → IsValid m → m.program_counter < length m.bytecode → IsValid (advance m)
advance-IsValid m v h = record { small = v.small; counter = omega arith; returns = v.returns }

OkImplies-map :
    (P Q : Vm → Type 0) (r : Result Vm) → ((m : Vm) → P m → Q m) → OkImplies P r → OkImplies Q r
OkImplies-map P Q (ok m) f h = f m h
OkImplies-map P Q (err e) f h = tt

execute_at-Kept :
    (m : Vm)
    → IsValid m
    → m.program_counter < length m.bytecode
    → (o : Option IrInstr) → OkImplies (Kept m) (execute_at o m)
execute_at-Kept m v h none = still m m.stack m.memory v refl
execute_at-Kept m v h (some i) =
    OkImplies-map (Kept (advance m)) (Kept m) (execute i.op i.operand (advance m))
      (λ m' k. record { valid = k.valid; same_bytecode = k.same_bytecode; same_size = k.same_size })
      (execute-Kept (advance m) (advance-IsValid m v h) i.op i.operand)

-- A round of the loop that raises no fault keeps the program and the size of the memory, and leaves
-- the program counter and every return address within the program or at its end.
pub step-IsValid :
    (m : Vm) {m' : Vm}
    → IsValid m
    → m.program_counter < length m.bytecode
    → step m ≡ ok m'
    → Kept m m'
unfolding step
step-IsValid m v h e = rw e at (execute_at-Kept m v h (get_elem? m.bytecode m.program_counter))
