-- ===== src/Vm/Machine.antt =====
-- src/backend/vm/vm.hpp and src/backend/vm/vm.cpp: the state of `vm` and its operations.
-- An `int` is its value, an integer in the range of 32 bits. A vector that is used as a stack is a
-- list with its back at the head. Signed overflow and division by zero are undefined in C++ and are
-- a fault of their own here.
use occult.Common.{
  ℕ, zero, suc, ◌-◌, ◌/◌, ◌%◌, ◌^◌, Bool, true, false, not, ◌||◌, ltb, leb, if◌then◌else◌, List, [],
  ◌∷◌, length, get_or, set, replicate, String,
}
use occult.Common.Int.{ℤ, pos, negsuc, ltb_ℤ, ◌+ℤ◌, ◌-ℤ◌, ◌*ℤ◌}
use occult.Ir.{IrInstr}

-- A `std::runtime_error` with its text, the exception of `std::get`, or undefined behaviour.
pub data Fault : Type 0 where
  runtime_error : String → Fault
  bad_variant_access undefined : Fault

pub data Result {ℓ} (A : Type ℓ) : Type ℓ where
  ok : A → Result A
  err : Fault → Result A

infixl 5 ◌>>=◌
abbrev pub ◌>>=◌ {ℓ κ} : {A : Type ℓ} {B : Type κ} → Result A → (A → Result B) → Result B
err fault >>= next = err fault
ok done >>= next = next done

pub record Vm : Type 0 where
  pub program_counter : ℕ
  pub stack : List ℤ
  pub bytecode : List IrInstr
  pub memory : List ℤ
  pub call_stack : List ℤ

-- The constructor.
abbrev pub vm : List IrInstr → ℕ → Vm
vm program memory_size = record {
  program_counter = 0;
  stack = [];
  bytecode = program;
  memory = replicate memory_size (pos 0);
  call_stack = [];
}

-- The residue of an integer modulo 2 ^ w: its conversion to an unsigned type of w bits.
unfoldable pub residue : ℕ → ℤ → ℕ
residue m (pos n) = n % m
residue m (negsuc n) = m - 1 - n % m

-- The conversions to `size_t` and to `int`.
abbrev pub to_size : ℤ → ℕ
to_size = residue (2 ^ 64)

unfoldable pub signed32 : ℕ → ℤ
signed32 w = if ltb w (2 ^ 31) then pos w else negsuc (2 ^ 32 - 1 - w)

unfoldable pub to_int : ℤ → ℤ
to_int a = signed32 (residue (2 ^ 32) a)

-- Does the value fit an `int`?
unfoldable pub fits_int : ℤ → Bool
fits_int (pos n) = ltb n (2 ^ 31)
fits_int (negsuc n) = ltb n (2 ^ 31)

-- The result of signed arithmetic, which is undefined on overflow.
unfoldable pub int_result : ℤ → Result ℤ
int_result a = if fits_int a then ok a else err undefined

-- Division truncates towards 0, and the remainder has the sign of the dividend.
unfoldable pub quotient : ℤ → ℤ → ℤ
quotient (pos b) (pos a) = pos (b / a)
quotient (pos b) (negsuc a) = pos 0 -ℤ pos (b / suc a)
quotient (negsuc b) (pos a) = pos 0 -ℤ pos (suc b / a)
quotient (negsuc b) (negsuc a) = pos (suc b / suc a)

unfoldable pub is_zero : ℤ → Bool
is_zero (pos zero) = true
is_zero _ = false

-- `b / a` and `b % a`; both are undefined where `a` is 0 or the quotient overflows.
unfoldable pub int_div : ℤ → ℤ → Result ℤ
int_div b a = if is_zero a then err undefined else int_result (quotient b a)

unfoldable pub int_mod : ℤ → ℤ → Result ℤ
int_mod b a = do q ← int_div b a; ok (b -ℤ q *ℤ a)

abbrev pub push : ℤ → Vm → Vm
push value m = record m { stack = value ∷ m.stack }

unfoldable pub pop : Vm → Result Vm
pop m = elim m.stack [
  | [] ↦ err (runtime_error "Attempted to pop from an empty stack.")
  | value ∷ rest ↦ ok (record m { stack = rest })
]

-- `a = stack.back(); pop(); b = stack.back(); pop(); push(f(b, a));` under its guard.
unfoldable pub binary_on : String → (ℤ → ℤ → Result ℤ) → List ℤ → Vm → Result Vm
binary_on underflow f (a ∷ b ∷ rest) m = do value ← f b a; ok (record m { stack = value ∷ rest })
binary_on underflow f _ m = err (runtime_error underflow)

abbrev pub binary : String → (ℤ → ℤ → Result ℤ) → Vm → Result Vm
binary underflow f m = binary_on underflow f m.stack m

abbrev pub add : Vm → Result Vm
add = binary "stack underflow in ADD opcode" (λ b a. int_result (b +ℤ a))

abbrev pub sub : Vm → Result Vm
sub = binary "stack underflow in SUB opcode" (λ b a. int_result (b -ℤ a))

abbrev pub mul : Vm → Result Vm
mul = binary "stack underflow in MUL opcode" (λ b a. int_result (b *ℤ a))

abbrev pub div : Vm → Result Vm
div = binary "stack underflow in DIV opcode" int_div

abbrev pub modulo : Vm → Result Vm
modulo = binary "stack underflow in MOD opcode" int_mod

abbrev pub cmp : Vm → Result Vm
cmp = binary "stack underflow in CMP" (λ b a. int_result (b -ℤ a))

-- `addr < 0 || addr >= memory.size()`
abbrev pub out_of_memory : ℤ → Vm → Bool
out_of_memory addr m = ltb_ℤ addr (pos 0) || leb (length m.memory) (to_size addr)

unfoldable pub store_on : ℤ → List ℤ → Vm → Result Vm
store_on addr [] m = err (runtime_error "stack underflow in STORE opcode")
store_on addr (value ∷ rest) m =
    if out_of_memory addr m
    then err (runtime_error "fuck")
    else ok (record m { stack = rest; memory = set m.memory (to_size addr) value })

abbrev pub store : ℤ → Vm → Result Vm
store addr m = store_on addr m.stack m

unfoldable pub load : ℤ → Vm → Result Vm
load addr m =
    if out_of_memory addr m
    then err (runtime_error "invalid memory address in LOAD opcode")
    else ok (push (get_or m.memory (to_size addr) (pos 0)) m)

-- `program_counter = addr`
abbrev pub goto : ℤ → Vm → Vm
goto addr m = record m { program_counter = to_size addr }

-- `addr > 0 || addr >= bytecode.size()`, the guard of `jmp`, `jz` and `jnz`.
abbrev pub jmp_refused : ℤ → Vm → Bool
jmp_refused addr m = ltb_ℤ (pos 0) addr || leb (length m.bytecode) (to_size addr)

-- `addr < 0 || addr >= static_cast<int>(bytecode.size())`, that of the others.
abbrev pub call_refused : ℤ → Vm → Bool
call_refused addr m = ltb_ℤ addr (pos 0) || not (ltb_ℤ addr (to_int (pos (length m.bytecode))))

unfoldable pub jmp : ℤ → Vm → Result Vm
jmp addr m =
    if jmp_refused addr m then err (runtime_error "invalid jmp address") else ok (goto addr m)

-- A conditional jump pops a value, and looks at the address only if the test holds of it.
unfoldable pub branch_on :
    String → String → (ℤ → Bool) → (ℤ → Vm → Bool) → ℤ → List ℤ → Vm → Result Vm
branch_on underflow invalid test refused addr [] m = err (runtime_error underflow)
branch_on underflow invalid test refused addr (value ∷ rest) m =
    let popped = record m { stack = rest } in
    if test value
    then if refused addr popped then err (runtime_error invalid) else ok (goto addr popped)
    else ok popped

abbrev pub jump_zero : (ℤ → Bool) → ℤ → Vm → Result Vm
jump_zero test addr m =
    branch_on "stack underflow in jz opcode" "invalid jmp address in jz" test jmp_refused addr
      m.stack m

abbrev pub jz : ℤ → Vm → Result Vm
jz = jump_zero is_zero

abbrev pub jnz : ℤ → Vm → Result Vm
jnz = jump_zero (λ value. not (is_zero value))

abbrev pub jump_sign : (ℤ → Bool) → ℤ → Vm → Result Vm
jump_sign test addr m =
    branch_on "Stack underflow in JGE opcode" "Invalid jump address in JGE opcode" test call_refused
      addr m.stack m

abbrev pub jl : ℤ → Vm → Result Vm
jl = jump_sign (λ value. ltb_ℤ value (pos 0))

abbrev pub jle : ℤ → Vm → Result Vm
jle = jump_sign (λ value. not (ltb_ℤ (pos 0) value))

abbrev pub jg : ℤ → Vm → Result Vm
jg = jump_sign (λ value. ltb_ℤ (pos 0) value)

abbrev pub jge : ℤ → Vm → Result Vm
jge = jump_sign (λ value. not (ltb_ℤ value (pos 0)))

unfoldable pub ret_on : List ℤ → Vm → Result Vm
ret_on [] m = err (runtime_error "call underflow in ret opcode")
ret_on (addr ∷ rest) m = ok (record m { program_counter = to_size addr; call_stack = rest })

abbrev pub ret : Vm → Result Vm
ret m = ret_on m.call_stack m

unfoldable pub call : ℤ → Vm → Result Vm
call addr m =
    if call_refused addr m
    then err (runtime_error "Invalid call address in CALL opcode")
    else ok (record m {
      call_stack = to_int (pos m.program_counter) ∷ m.call_stack;
      program_counter = to_size addr;
    })
