-- ===== src/Vm/Expressions.antt =====
-- An expression written in postfix order leaves its value on the stack of the machine.
use mathlib.Core.List.{append_assoc}
use occult.Common.{
  ℕ, zero, suc, ◌+◌, ◌≡◌, refl, List, [], ◌∷◌, ◌++◌, length, length-append, arith, ◌∙◌, ap, drop,
  sym, drop-drop, drop-append, get_elem?_of_drop,
}
use Prim.Native.Nat.add
use occult.Common.Int.{ℤ, ◌+ℤ◌, ◌-ℤ◌, ◌*ℤ◌}
use occult.Ir.{
  IrOpcode, op_push, op_add, op_div, op_mod, op_sub, op_mul, int64, monostate, IrInstr, instr,
}
use occult.Vm.Machine.{Vm, Result, ok, err, ◌>>=◌, to_int, int_result, int_div, int_mod, binary_on}
use occult.Vm.Run.{execute, step, operand_int, advance}

pub data BinOp : Type 0 where
  plus minus times over rem : BinOp

pub data Expr : Type 0 where
  literal : ℤ → Expr
  bin : BinOp → Expr → Expr → Expr

-- The arithmetic of `int`, with overflow and division by zero undefined.
unfoldable pub apply : BinOp → ℤ → ℤ → Result ℤ
apply plus b a = int_result (b +ℤ a)
apply minus b a = int_result (b -ℤ a)
apply times b a = int_result (b *ℤ a)
apply over b a = int_div b a
apply rem b a = int_mod b a

unfoldable pub eval : Expr → Result ℤ
eval (literal n) = ok (to_int n)
eval (bin op l r) = eval l >>= λ b. eval r >>= λ a. apply op b a

unfoldable pub opcode : BinOp → IrOpcode
opcode plus = op_add
opcode minus = op_sub
opcode times = op_mul
opcode over = op_div
opcode rem = op_mod

-- The postfix code of an expression.
unfoldable pub postfix : Expr → List IrInstr
postfix (literal n) = instr op_push (int64 n) ∷ []
postfix (bin op l r) = postfix l ++ (postfix r ++ instr (opcode op) monostate ∷ [])

-- So many rounds of the loop.
unfoldable pub steps : ℕ → Vm → Result Vm
steps zero m = ok m
steps (suc n) m = step m >>= steps n

-- Chained steps, in either grouping, and with equal last steps.
bind_assoc {ℓ κ μ} :
    {X : Type ℓ} {Y : Type κ} {Z : Type μ} (m : Result X) (next : X → Result Y)
    (last : Y → Result Z)
    → ((m >>= next) >>= last) ≡ (m >>= λ x. next x >>= last)
bind_assoc (err fault) next last = refl
bind_assoc (ok x) next last = refl

bind_congr {ℓ κ} :
    {X : Type ℓ} {Y : Type κ} (m : Result X) {next next' : X → Result Y}
    → ((x : X) → next x ≡ next' x)
    → (m >>= next) ≡ (m >>= next')
bind_congr (err fault) same = refl
bind_congr (ok x) same = same x

steps-add : (n k : ℕ) (m : Vm) → steps (n + k) m ≡ (steps n m >>= steps k)
unfolding steps
steps-add zero k m = rw add.zero
steps-add (suc n) k m =
    rw add.suc
      (bind_congr (step m) (λ m'. steps-add n k m') ∙ sym (bind_assoc (step m) (steps n) (steps k)))

step_at :
    (m : Vm) (i : IrInstr) (after : List IrInstr)
    → drop m.program_counter m.bytecode ≡ i ∷ after
    → step m ≡ execute i.op i.operand (advance m)
unfolding step
step_at m i after at = rw (get_elem?_of_drop m.bytecode m.program_counter i after at)

-- An operator pops its right operand, then its left one.
execute-opcode :
    (op : BinOp) (b a : ℤ) (s : List ℤ) (m : Vm)
    → m.stack ≡ a ∷ b ∷ s
    → execute (opcode op) monostate m ≡ (apply op b a >>= λ v. ok (record m { stack = v ∷ s }))
unfolding execute opcode apply binary_on
execute-opcode plus b a s m e = rw e
execute-opcode minus b a s m e = rw e
execute-opcode times b a s m e = rw e
execute-opcode over b a s m e = rw e
execute-opcode rem b a s m e = rw e

abbrev pub pushed : ℕ → ℤ → Vm → Vm
pushed n v m = record m { program_counter = m.program_counter + n; stack = v ∷ m.stack }

drop_behind :
    (i : ℕ) (xs ys bytecode : List IrInstr)
    → drop i bytecode ≡ xs ++ ys
    → drop (i + length xs) bytecode ≡ ys
drop_behind i xs ys bytecode at =
    sym (drop-drop i (length xs) bytecode) ∙ ap (drop (length xs)) at ∙ drop-append xs ys

-- Over the code of an expression the machine does what the evaluator does: as many rounds as the code
-- is long push the value and leave memory, calls and the rest of the stack, or end with the
-- same undefined behaviour.
pub steps-postfix :
    (e : Expr) (m : Vm) (after : List IrInstr)
    → drop m.program_counter m.bytecode ≡ postfix e ++ after
    → steps (length (postfix e)) m ≡ (eval e >>= λ v. ok (pushed (length (postfix e)) v m))
unfolding steps postfix eval
steps-postfix (literal n) m after at =
    rw (step_at m _ after at) (unfold execute operand_int in refl)
steps-postfix (bin op l r) m after at =
    let i = instr (opcode op) monostate in
    let pl = postfix l in
    let pr = postfix r in
    let nl = length pl in
    let nr = length pr in
    let size : length (postfix (bin op l r)) ≡ nl + (nr + 1) =
      omega (arith, length-append pl (pr ++ i ∷ []), length-append pr (i ∷ [])) in
    let counter : (p : ℕ) → p + nl + nr + 1 ≡ p + length (postfix (bin op l r)) =
      λ p. omega (arith, size) in
    let at_l = at ∙ append_assoc pl (pr ++ i ∷ []) after in
    let at_r : drop (m.program_counter + nl) m.bytecode ≡ pr ++ (i ∷ after) =
      drop_behind m.program_counter pl ((pr ++ i ∷ []) ++ after) m.bytecode at_l
      ∙ append_assoc pr (i ∷ []) after in
    let at_i : drop (m.program_counter + nl + nr) m.bytecode ≡ i ∷ after =
      drop_behind (m.program_counter + nl) pr (i ∷ after) m.bytecode at_r in
    let last : (b a : ℤ)
        → steps 1 (pushed nr a (pushed nl b m))
          ≡ (apply op b a >>= λ v. ok (pushed (length (postfix (bin op l r))) v m)) =
      λ b a.
        let x = pushed nr a (pushed nl b m) in
        ap (λ r. r >>= steps 0)
          (step_at x i after at_i ∙ execute-opcode op b a m.stack (advance x) refl)
        ∙ bind_assoc (apply op b a) (λ v. ok (record (advance x) { stack = v ∷ m.stack })) (steps 0)
        ∙ bind_congr (apply op b a) (λ v.
          ap (λ n. ok (record m { program_counter = n; stack = v ∷ m.stack }))
            (counter m.program_counter)) in
    ap (λ n. steps n m) size
    ∙ steps-add nl (nr + 1) m
    ∙ ap (λ x. x >>= steps (nr + 1)) (steps-postfix l m ((pr ++ i ∷ []) ++ after) at_l)
    ∙ bind_assoc (eval l) (λ b. ok (pushed nl b m)) (steps (nr + 1))
    ∙ bind_congr (eval l) (λ b.
      steps-add nr 1 (pushed nl b m)
      ∙ ap (λ x. x >>= steps 1) (steps-postfix r (pushed nl b m) (i ∷ after) at_r)
      ∙ bind_assoc (eval r) (λ a. ok (pushed nr a (pushed nl b m))) (steps 1)
      ∙ bind_congr (eval r) (last b)
      ∙ sym
          (bind_assoc (eval r) (apply op b) (λ v. ok (pushed (length (postfix (bin op l r))) v m))))
    ∙ sym (
        bind_assoc (eval l) (λ b. eval r >>= apply op b)
          (λ v. ok (pushed (length (postfix (bin op l r))) v m)))
